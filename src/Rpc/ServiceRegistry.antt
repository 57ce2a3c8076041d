-- ===== src/Rpc/ServiceRegistry.antt =====
-- include/minirpc/rpc/ServiceRegistry.h and src/rpc/ServiceRegistry.cpp. The lock makes each method
-- one step. A service is the number that stands for its pointer.
use mini_rpc.Base.{ℕ, ◌≡◌, ◌≢◌, List, Bool, true, false, Option, none, some, arith}
use mini_rpc.Base.Text.{Text, Text-discrete}
use mini_rpc.Base.Dict.{lookup, insert, lookup-insert_self, lookup-insert_ne}

abbrev pub Services : Type 0
Services = List (Text × ℕ)

unfoldable pub add_service : Text → ℕ → Services → Bool × Services
add_service name service services = elim (lookup Text-discrete name services) [
  | some _ ↦ (false, services)
  | none ↦ (true, insert Text-discrete name service services)
]

unfoldable pub find_service : Text → Services → Option ℕ
find_service name services = lookup Text-discrete name services

-- `addService` succeeds exactly on a new name; then the name finds the service and every other name
-- what it found before. On a name that is taken nothing changes: the first registration stays.
pub record Adds (name : Text) (service : ℕ) (before : Services) (result : Bool × Services)
    : Type 0 where
  pub fresh :
      find_service name before ≡ none
      → (result.0 ≡ true) × (find_service name result.1 ≡ some service)
  pub taken : (s : ℕ) → find_service name before ≡ some s → (result.0 ≡ false) × (result.1 ≡ before)
  pub others :
      (other : Text) → name ≢ other → find_service other result.1 ≡ find_service other before

-- addService on a new name succeeds and the name then finds the service; on a name that is taken it
-- fails and changes nothing; no other name is affected.
pub add_service-Adds :
    (name : Text) (service : ℕ) (services : Services)
    → Adds name service services (add_service name service services)
unfolding add_service find_service
add_service-Adds name service services = record {
  fresh = λ e. ground (arith, lookup-insert_self Text-discrete name service services);
  taken = λ s e. ground arith;
  others =
      λ other ne. ground (arith, lookup-insert_ne Text-discrete name other service services ne);
}
