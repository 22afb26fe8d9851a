-- ===== src/Jobs/Claim/Fleet.antt =====
-- The instances of one app that claim in the same store, in any order.
use gwf.Common.{
  ℕ, suc, String, refl, inl, inr, Bool, true, false, some, List, arith, eq_iff, ltb, ltb→lt,
  Bool-cases, Result, ok, err, ◌+◌, ◌*◌, ◌≤◌, ◌<◌, ◌≡◌, ◌⊎◌, ◌&&◌, ◌∷◌, ◌==◌, [], if◌then◌else◌,
  String_eq, ℕ_eq,
}
use gwf.Common.Int.{pos}
use gwf.Kvdb.{Put, Put-won, Put-keeps, Kvdb}
use gwf.Jobs.Add.{minute}
use gwf.Jobs.Claim.{mark_lifetime, mark_key, ledger_error, claim}

-- Of the answers, one is a win.
abbrev pub with_win : Result String Bool → String → ℕ → List (String × ℕ) → List (String × ℕ)
with_win (ok true) id m wins = (id, m) ∷ wins
with_win _ id m wins = wins

-- A claim of a minute is made, on the store's clock, at most `early` before the minute starts and
-- less than `late` after: an instance claims the minute that its own clock shows.
abbrev pub IsPrompt : ℕ → ℕ → ℕ → ℕ → Type 0
IsPrompt early late m t = (m * minute ≤ t + early) × (t < m * minute + late)

-- The store and the claims won so far, latest first, after any claims of any instances with time
-- passing between them.
pub data Reach (kvdb : Kvdb) (prefix : String) (early late : ℕ)
    : kvdb.Db → List (String × ℕ) → Type 0 where
  start : (db : kvdb.Db) → Reach kvdb prefix early late db []
  waits :
      {db : kvdb.Db} {wins : List (String × ℕ)} (d : ℕ)
      → Reach kvdb prefix early late db wins
      → Reach kvdb prefix early late (kvdb.wait d db) wins
  claims :
      {db : kvdb.Db} {wins : List (String × ℕ)} (stamp id : String) (m : ℕ)
      → IsPrompt early late m (kvdb.now db)
      → Reach kvdb prefix early late db wins
      → Reach kvdb prefix early late
          (claim kvdb prefix stamp id m db).1
          (with_win (claim kvdb prefix stamp id m db).0 id m wins)

-- How often an occurrence of a job was won.
abbrev pub times_won : String → ℕ → List (String × ℕ) → ℕ
times_won id m [] = 0
times_won id m ((j, n) ∷ wins) =
    let rest = times_won id m wins in if j == id && n == m then suc rest else rest

-- The time for claims of the minute is over, or its mark stands until then.
abbrev pub IsMarked : (kvdb : Kvdb) → String → ℕ → kvdb.Db → String → ℕ → Type 0
IsMarked kvdb prefix late db id m =
    (m * minute + late ≤ kvdb.now db)
    ⊎ ((v : String) × (u : ℕ) × (kvdb.rows db (mark_key prefix id m)
          ≡ some (record { value = v; until = some u }))
        × (m * minute + late ≤ u))

-- No occurrence is won twice, and one that is won is marked.
abbrev pub IsWonOnce : (kvdb : Kvdb) → String → ℕ → kvdb.Db → List (String × ℕ) → Type 0
IsWonOnce kvdb prefix late db wins =
    (id : String) (m : ℕ)
    → (times_won id m wins ≡ 0) ⊎ ((times_won id m wins ≡ 1) × IsMarked kvdb prefix late db id m)

module _ (kvdb : Kvdb) (prefix : String) (late : ℕ) where
  wait-IsMarked :
      (d : ℕ) (db : kvdb.Db) (id : String) (m : ℕ)
      → IsMarked kvdb prefix late db id m
      → IsMarked kvdb prefix late (kvdb.wait d db) id m
  wait-IsMarked d db id m (inl over) = inl (omega (arith, kvdb.now-wait d db))
  wait-IsMarked d db id m (inr (v, u, mark, long)) =
      elim (Bool-cases (ltb (kvdb.now db + d) (m * minute + late))) [
        | inl within ↦ inr (
          v,
          u,
          kvdb.rows-wait d db (mark_key prefix id m) v u mark
              (omega (arith, ltb→lt (kvdb.now db + d) (m * minute + late) within)),
          long,
        )
        | inr over ↦ inl (ground (arith, kvdb.now-wait d db))
      ]

  -- The write that a claim makes.
  abbrev IsWrite : String → String → ℕ → kvdb.Db → Type 0
  IsWrite stamp id m db =
      let r = claim kvdb prefix stamp id m db in
      let w = kvdb.set_value_if_not_exists (mark_key prefix id m) stamp (pos mark_lifetime) db in
      (u : ℕ) × (kvdb.now db + mark_lifetime ≤ u)
      × (kvdb.now r.1 ≡ kvdb.now db)
      × Put (mark_key prefix id m) (record { value = stamp; until = some u }) (kvdb.rows db) w.0
          (kvdb.rows r.1)
      × (r.0 ≡ ledger_error w.0)

  claim-IsWrite : (stamp id : String) (m : ℕ) (db : kvdb.Db) → IsWrite stamp id m db
  unfolding claim
  claim-IsWrite stamp id m db =
      let (u, covers, put, same) =
        kvdb.set_value_if_not_exists_law (mark_key prefix id m) stamp (pos mark_lifetime) db in
      (u, covers, same, put, refl)

  claim-IsMarked :
      (stamp id : String) (m : ℕ) (db : kvdb.Db) (j : String) (n : ℕ)
      → IsMarked kvdb prefix late db j n
      → IsMarked kvdb prefix late (claim kvdb prefix stamp id m db).1 j n
  claim-IsMarked stamp id m db j n (inl over) =
      let (u, covers, same, put, answer) = claim-IsWrite stamp id m db in inl (omega (arith, same))
  claim-IsMarked stamp id m db j n (inr (v, until, mark, long)) =
      let (u, covers, same, put, answer) = claim-IsWrite stamp id m db in
      inr (v, until, Put-keeps (mark_key prefix j n) _ put mark, long)

  ledger_error-win : (r : Result String Bool) → ledger_error r ≡ ok true → r ≡ ok true
  unfolding ledger_error
  ledger_error-win (ok won) h = h
  ledger_error-win (err m) h = cc

  -- A claim that wins finds no mark, and leaves one that outlasts the minute's claims.
  claim-win :
      (early : ℕ) (stamp id : String) (m : ℕ) (db : kvdb.Db)
      → early + late ≤ mark_lifetime
      → IsPrompt early late m (kvdb.now db)
      → (claim kvdb prefix stamp id m db).0 ≡ ok true
      → (¬ IsMarked kvdb prefix late db id m)
        × IsMarked kvdb prefix late (claim kvdb prefix stamp id m db).1 id m
  claim-win early stamp id m db short prompt h =
      let (u, covers, same, put, answer) = claim-IsWrite stamp id m db in
      let (free, made) = Put-won put (ledger_error-win _ (rw⁻¹ answer h)) in
      (
        λ marked. elim marked [
          | inl over ↦ omega (arith, prompt.1, over)
          | inr (v, until, mark, long) ↦ ground (arith, free, mark)
        ],
        inr (
          stamp,
          u,
          rw (made (mark_key prefix id m))
              (ground (arith, eq_iff (mark_key prefix id m) (mark_key prefix id m))),
          omega (arith, prompt.0, covers),
        ),
      )

  Win-cases :
      (r : Result String Bool)
      → (r ≡ ok true)
        ⊎ ((id : String) (m : ℕ) (wins : List (String × ℕ)) → with_win r id m wins ≡ wins)
  Win-cases (ok true) = inl refl
  Win-cases (ok false) = inr (λ _ _ _. refl)
  Win-cases (err e) = inr (λ _ _ _. refl)

  waits-IsWonOnce :
      (d : ℕ) (db : kvdb.Db) (wins : List (String × ℕ))
      → IsWonOnce kvdb prefix late db wins
      → IsWonOnce kvdb prefix late (kvdb.wait d db) wins
  waits-IsWonOnce d db wins v id m = elim (v id m) [
    | inl never ↦ inl never
    | inr (once, marked) ↦ inr (once, wait-IsMarked d db id m marked)
  ]

  claims-IsWonOnce :
      (early : ℕ) (stamp id : String) (m : ℕ) (db : kvdb.Db) (wins : List (String × ℕ))
      → early + late ≤ mark_lifetime
      → IsPrompt early late m (kvdb.now db)
      → IsWonOnce kvdb prefix late db wins
      → let r = claim kvdb prefix stamp id m db in
        IsWonOnce kvdb prefix late r.1 (with_win r.0 id m wins)
  claims-IsWonOnce early stamp id m db wins short prompt v j n =
      elim (Win-cases (claim kvdb prefix stamp id m db).0) [
        | inr lost ↦ rw (lost id m wins) (elim (v j n) [
          | inl never ↦ inl never
          | inr (once, marked) ↦ inr (once, claim-IsMarked stamp id m db j n marked)
        ])
        | inl win ↦
            let (free, made) = claim-win early stamp id m db short prompt win in
            rw win (elim (Bool-cases (id == j && m == n)) [
              | inl this ↦
                  let same_id : id ≡ j = ground (arith, eq_iff id j) in
                  let same_minute : m ≡ n = ground arith in
                  let moved : (¬ IsMarked kvdb prefix late db j n)
                      × IsMarked kvdb prefix late (claim kvdb prefix stamp id m db).1 j n =
                    rw⁻¹ (same_id, same_minute) (free, made) in
                  rw this (elim (v j n) [
                    | inl never ↦ inr (omega (arith, never), moved.1)
                    | inr (once, marked) ↦ absurd (moved.0 marked)
                  ])
              | inr other ↦ rw other (elim (v j n) [
                | inl never ↦ inl never
                | inr (once, marked) ↦ inr (once, claim-IsMarked stamp id m db j n marked)
              ])
            ])
      ]

  Reach-IsWonOnce :
      {early : ℕ} {db : kvdb.Db} {wins : List (String × ℕ)}
      → early + late ≤ mark_lifetime
      → Reach kvdb prefix early late db wins
      → IsWonOnce kvdb prefix late db wins
  Reach-IsWonOnce short (start db) = λ id m. inl refl
  Reach-IsWonOnce short (waits {db} {wins} d before) =
      waits-IsWonOnce d db wins (Reach-IsWonOnce short before)
  Reach-IsWonOnce {early} short (claims {db} {wins} stamp id m prompt before) =
      claims-IsWonOnce early stamp id m db wins short prompt (Reach-IsWonOnce short before)

-- Over any store that keeps the laws of `Kvdb`, failing calls included: however the instances'
-- claims interleave, no minute of a job is won more than once, so that a job of the app's scope runs
-- in one instance at most, if every claim of a minute is made at most `early` before it starts and
-- less than `late` after, and the two together are no more than the lifetime of a mark.
pub once_per_app_lem :
    (kvdb : Kvdb) (prefix : String) (early late : ℕ) (db : kvdb.Db) (wins : List (String × ℕ))
    → early + late ≤ mark_lifetime
    → Reach kvdb prefix early late db wins
    → (id : String) (m : ℕ) → times_won id m wins ≤ 1
once_per_app_lem kvdb prefix early late db wins short reach id m =
    elim (Reach-IsWonOnce kvdb prefix late short reach id m) [
      | inl never ↦ omega (arith, never)
      | inr (once, marked) ↦ omega (arith, once)
    ]
