-- ===== src/Core/Register/Tests.antt =====
-- Registering an api that a factory builds.
use gwf.Common.{refl, none, ok, ◌≡◌, ◌∙◌}
use gwf.Graph.{ServiceGraph}
use gwf.Graph.Tests.{one, two, on_db, api, resolve-api, add_api}
use gwf.Core.Register.{
  Service, Built, built, register_service, register_service_func, register_service_func_lem,
}

abbrev api_service : Service
api_service = record { name = "api"; own_deps = none }

abbrev build : ServiceGraph → Built
build g = built api_service

api_registered : register_service_func "api" build on_db one ≡ ok two
unfolding register_service
api_registered =
    register_service_func_lem api_service build on_db one api resolve-api refl ∙ add_api
