-- ===== src/Locking/Shared/Fleet.antt =====
-- Any number of instances that ask for names, give them back and die, in any order.
use Prim.Native.String.{◌++◌ as append}
use gwf.Common.{
  ℕ, zero, suc, String, refl, sym, ap, inl, inr, true, false, none, some, List, arith, eq_iff,
  Bool-cases, Result, ok, err, get_elem?, All, All-mono, contains, Distinct, subst, ◌≡◌, ◌∙◌, ◌≢◌,
  ◌∷◌, ◌==◌, [], if◌then◌else◌, String_eq, ℕ_eq,
}
use gwf.Kvdb.{Rows, Kvdb}
use gwf.Locking.Shared.{Manager, AskError, row_key, acquire, give_back}
use gwf.Locking.Shared.Exclusion.{IsAsked, acquire-IsAsked, give_back-keeps}

-- A function that runs under a name.
pub record Grant : Type 0 where
  pub instance_no : ℕ
  pub name : String
  pub proof : String

abbrev pub grant_names : List Grant → List String
grant_names [] = []
grant_names (g ∷ gs) = g.name ∷ grant_names gs

abbrev pub remove_at : ℕ → List Grant → List Grant
remove_at k [] = []
remove_at zero (g ∷ gs) = gs
remove_at (suc k) (g ∷ gs) = g ∷ remove_at k gs

abbrev pub survivors : ℕ → List Grant → List Grant
survivors i [] = []
survivors i (g ∷ gs) = let rest = survivors i gs in if g.instance_no == i then rest else g ∷ rest

abbrev pub with_grant : Result AskError String → ℕ → String → List Grant → List Grant
with_grant (ok proof) i name gs = record { instance_no = i; name = name; proof = proof } ∷ gs
with_grant (err e) i name gs = gs

abbrev pub with_manager : ℕ → Manager → (ℕ → Manager) → ℕ → Manager
with_manager i m managers j = if i == j then m else managers j

pub record System (kvdb : Kvdb) : Type 0 where
  pub db : kvdb.Db
  pub managers : ℕ → Manager
  -- the functions that run, under the grants that their instances hold
  pub running : List Grant

module _ {kvdb : Kvdb} where
  unfoldable pub after_ask : ℕ → String → System kvdb → System kvdb
  after_ask i name s =
      let r = acquire kvdb name (s.managers i) s.db in
      record {
        db = r.2;
        managers = with_manager i r.1 s.managers;
        running = with_grant r.0 i name s.running;
      }

  -- The function at a place in the list has returned.
  pub after_return : ℕ → Grant → System kvdb → System kvdb
  after_return k g s =
      let r = give_back kvdb g.name g.proof (s.managers g.instance_no) s.db in
      record {
        db = r.1;
        managers = with_manager g.instance_no r.0 s.managers;
        running = remove_at k s.running;
      }

  -- An instance dies, and a new one starts in its place.
  pub after_death : ℕ → Manager → System kvdb → System kvdb
  after_death i m s = record {
    db = s.db;
    managers = with_manager i m s.managers;
    running = survivors i s.running;
  }

pub data Step (kvdb : Kvdb) (s : System kvdb) : System kvdb → Type 0 where
  asks : (i : ℕ) (name : String) → Step kvdb s (after_ask i name s)
  returns : (k : ℕ) (g : Grant) → get_elem? s.running k ≡ some g → Step kvdb s (after_return k g s)
  dies : (i : ℕ) (m : Manager) → m.prefix ≡ (s.managers i).prefix → Step kvdb s (after_death i m s)
  waits : (d : ℕ) → Step kvdb s (record s { db = kvdb.wait d s.db })

-- From instances of one prefix, none of which runs anything; rows may stand from before.
pub data Reach (kvdb : Kvdb) (prefix : String) : System kvdb → Type 0 where
  start :
      (db : kvdb.Db) (managers : ℕ → Manager)
      → ((i : ℕ) → (managers i).prefix ≡ prefix)
      → Reach kvdb prefix (record { db = db; managers = managers; running = [] })
  later : {s t : System kvdb} → Reach kvdb prefix s → Step kvdb s t → Reach kvdb prefix t

module _ (prefix : String) where
  -- The row of each grant stands under its proof.
  abbrev IsStanding : Rows → List Grant → Type 0
  IsStanding rows gs =
      All (λ g. rows (append prefix g.name) ≡ some (record { value = g.proof; until = none })) gs

  IsStanding-free :
      (rows : Rows) (gs : List Grant) (name : String)
      → IsStanding rows gs
      → rows (append prefix name) ≡ none
      → contains (grant_names gs) name ≡ false
  IsStanding-free rows [] name h free = refl
  IsStanding-free rows (g ∷ gs) name (here, there) free =
      let rest = IsStanding-free rows gs name there free in
      elim (Bool-cases (g.name == name)) [
        | inl same ↦
            let e : g.name ≡ name = ground (arith, eq_iff g.name name) in
            let stands : rows (append prefix name)
                ≡ some (record { value = g.proof; until = none }) =
              rw⁻¹ e here in
            absurd (ground (arith, stands, free))
        | inr other ↦ rw (other, rest) refl
      ]

contains-remove_at :
    (k : ℕ) (gs : List Grant) (name : String)
    → contains (grant_names gs) name ≡ false
    → contains (grant_names (remove_at k gs)) name ≡ false
contains-remove_at k [] name h = refl
contains-remove_at zero (g ∷ gs) name h = ground arith
contains-remove_at (suc k) (g ∷ gs) name h = ground (arith, contains-remove_at k gs name)

remove_at-Distinct :
    (k : ℕ) (gs : List Grant) → Distinct (grant_names gs) → Distinct (grant_names (remove_at k gs))
remove_at-Distinct k [] d = tt
remove_at-Distinct zero (g ∷ gs) d = d.1
remove_at-Distinct (suc k) (g ∷ gs) d =
    (contains-remove_at k gs g.name d.0, remove_at-Distinct k gs d.1)

contains-get_elem? :
    (k : ℕ) (gs : List Grant) (g : Grant)
    → get_elem? gs k ≡ some g
    → contains (grant_names gs) g.name ≡ true
contains-get_elem? k [] g h = cc
contains-get_elem? zero (x ∷ gs) g h = ground (arith, eq_iff g.name g.name)
contains-get_elem? (suc k) (x ∷ gs) g h = ground (arith, contains-get_elem? k gs g)

contains-survivors :
    (i : ℕ) (gs : List Grant) (name : String)
    → contains (grant_names gs) name ≡ false
    → contains (grant_names (survivors i gs)) name ≡ false
contains-survivors i [] name h = refl
contains-survivors i (g ∷ gs) name h = ground (arith, contains-survivors i gs name)

survivors-Distinct :
    (i : ℕ) (gs : List Grant) → Distinct (grant_names gs) → Distinct (grant_names (survivors i gs))
survivors-Distinct i [] d = tt
survivors-Distinct i (g ∷ gs) d = elim (Bool-cases (g.instance_no == i)) [
  | inl dead ↦ rw dead (survivors-Distinct i gs d.1)
  | inr alive ↦ rw alive (contains-survivors i gs g.name d.0, survivors-Distinct i gs d.1)
]

survivors-All : (P : Grant → Type 0) (i : ℕ) (gs : List Grant) → All P gs → All P (survivors i gs)
survivors-All P i [] h = tt
survivors-All P i (g ∷ gs) h = elim (Bool-cases (g.instance_no == i)) [
  | inl dead ↦ rw dead (survivors-All P i gs h.1)
  | inr alive ↦ rw alive (h.0, survivors-All P i gs h.1)
]

-- What is kept of the grants other than the one taken out.
remove_at-All :
    (P Q : Grant → Type 0) (k : ℕ) (gs : List Grant) (g : Grant)
    → Distinct (grant_names gs)
    → get_elem? gs k ≡ some g
    → ((h : Grant) → g.name ≢ h.name → P h → Q h)
    → All P gs
    → All Q (remove_at k gs)
remove_at-All P Q k [] g d e f h = tt
remove_at-All P Q zero (x ∷ gs) g d e f h = let same : x ≡ g = cc in rest gs (rw⁻¹ same d.0) h.1
  where
    rest : (gs : List Grant) → contains (grant_names gs) g.name ≡ false → All P gs → All Q gs
    rest [] absent all = tt
    rest (y ∷ ys) absent all =
        (f y (λ e. ground (arith, eq_iff y.name g.name, sym e)) all.0, rest ys (ground arith) all.1)
remove_at-All P Q (suc k) (x ∷ gs) g d e f h = (
  f x
      (λ same. ground (
        arith,
        contains-get_elem? k gs g e,
        subst (λ n. contains (grant_names gs) n ≡ false) (sym same) d.0,
      ))
      h.0,
  remove_at-All P Q k gs g d.1 e f h.1,
)

-- Every grant's row stands, no two grants are of one name, and all instances use one prefix.
record IsExclusive (kvdb : Kvdb) (prefix : String) (s : System kvdb) : Type 0 where
  pub standing : IsStanding prefix (kvdb.rows s.db) s.running
  pub distinct : Distinct (grant_names s.running)
  pub one_prefix : (i : ℕ) → (s.managers i).prefix ≡ prefix

with_manager-prefix :
    (prefix : String) (i : ℕ) (m : Manager) (managers : ℕ → Manager)
    → m.prefix ≡ prefix
    → ((j : ℕ) → (managers j).prefix ≡ prefix)
    → (j : ℕ) → (with_manager i m managers j).prefix ≡ prefix
with_manager-prefix prefix i m managers h all j = ground (arith, all j)

module _ {kvdb : Kvdb} (prefix : String) where
  granted-IsExclusive :
      (s : System kvdb) (i : ℕ) (name : String) (r : Result AskError String) (m : Manager)
      (db : kvdb.Db)
      → IsExclusive kvdb prefix s
      → IsAsked kvdb (s.managers i) name s.db (r, m, db)
      → IsExclusive kvdb prefix (record {
        db = db;
        managers = with_manager i m s.managers;
        running = with_grant r i name s.running;
      })
  granted-IsExclusive s i name (err e) m db v asked = record {
    standing = All-mono _ _ s.running (λ g. asked.keeps _ _) v.standing;
    distinct = v.distinct;
    one_prefix =
        with_manager-prefix prefix i m s.managers (asked.same_prefix ∙ v.one_prefix i) v.one_prefix;
  }
  granted-IsExclusive s i name (ok proof) m db v asked =
      let (free, made) = asked.granted proof refl in
      let key : row_key (s.managers i) name ≡ append prefix name =
        unfold row_key in ap (λ p. append p name) (v.one_prefix i) in
      record {
        standing = (rw⁻¹ key made, All-mono _ _ s.running (λ g. asked.keeps _ _) v.standing);
        distinct = (
          IsStanding-free prefix (kvdb.rows s.db) s.running name v.standing (rw⁻¹ key free),
          v.distinct,
        );
        one_prefix =
            with_manager-prefix prefix i m s.managers (asked.same_prefix ∙ v.one_prefix i)
              v.one_prefix;
      }

  return-IsExclusive :
      (s : System kvdb) (k : ℕ) (g : Grant)
      → IsExclusive kvdb prefix s
      → get_elem? s.running k ≡ some g
      → IsExclusive kvdb prefix (after_return k g s)
  unfolding after_return
  return-IsExclusive s k g v e =
      let m = s.managers g.instance_no in
      let key : (name : String) → row_key m name ≡ append prefix name =
        unfold row_key in (λ name. ap (λ p. append p name) (v.one_prefix g.instance_no)) in
      record {
        standing =
            remove_at-All _ _ k s.running g v.distinct e
              (λ h other stands. rw⁻¹ (key h.name) (
                rw (give_back-keeps kvdb m g.name g.proof h.name s.db other)
                  (rw (key h.name) stands)))
              v.standing;
        distinct = remove_at-Distinct k s.running v.distinct;
        one_prefix =
            with_manager-prefix prefix g.instance_no _ s.managers
              (unfold give_back in v.one_prefix g.instance_no) v.one_prefix;
      }

  Step-IsExclusive :
      (s t : System kvdb) → Step kvdb s t → IsExclusive kvdb prefix s → IsExclusive kvdb prefix t
  unfolding after_ask after_death
  Step-IsExclusive s _ (asks i name) v =
      granted-IsExclusive s i name _ _ _ v (acquire-IsAsked kvdb name (s.managers i) s.db)
  Step-IsExclusive s _ (returns k g e) v = return-IsExclusive s k g v e
  Step-IsExclusive s _ (dies i m same) v = record {
    standing = survivors-All _ i s.running v.standing;
    distinct = survivors-Distinct i s.running v.distinct;
    one_prefix = with_manager-prefix prefix i m s.managers (same ∙ v.one_prefix i) v.one_prefix;
  }
  Step-IsExclusive s _ (waits d) v = record {
    standing = All-mono _ _ s.running (λ g. kvdb.rows-wait_persistent d s.db _ _) v.standing;
    distinct = v.distinct;
    one_prefix = v.one_prefix;
  }

  Reach-IsExclusive : (s : System kvdb) → Reach kvdb prefix s → IsExclusive kvdb prefix s
  Reach-IsExclusive _ (start db managers same) = record {
    standing = tt;
    distinct = tt;
    one_prefix = same;
  }
  Reach-IsExclusive t (later {s} before step) =
      Step-IsExclusive s t step (Reach-IsExclusive s before)

-- Over any store that keeps the laws of `Kvdb`, failing calls included: in whatever order instances
-- of one prefix ask for names, give them back, die and are replaced, no two functions run under the
-- same name at once, in one instance or in two.
pub mutual_exclusion :
    (kvdb : Kvdb) (prefix : String) (s : System kvdb)
    → Reach kvdb prefix s
    → Distinct (grant_names s.running)
mutual_exclusion kvdb prefix s reach = (Reach-IsExclusive prefix s reach).distinct
