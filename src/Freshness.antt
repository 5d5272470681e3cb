-- ===== src/Freshness.antt =====
-- backend/freshness/state.py: the services whose index is stale. A set is a list without order.
pub mod Diff
pub mod Reindex
pub mod Reconcile
use vectural.Prelude.{
  Bool, true, false, not, String, List, [], ◌∷◌, ◌++◌, keep, some_of, contains, Key, string_key,
  if◌then◌else◌,
}

pub record FreshnessState : Type 0 where
  pub stale : List String

-- `self._stale |= set(services)`
unfoldable pub mark_stale : List String → FreshnessState → FreshnessState
mark_stale services s = record { stale = services ++ s.stale }

-- `self._stale -= set(services)`
unfoldable pub clear : List String → FreshnessState → FreshnessState
clear services s = record { stale = keep (λ x. not (contains x services)) s.stale }

unfoldable pub clear_all : FreshnessState → FreshnessState
clear_all s = record { stale = [] }

unfoldable pub is_stale : String → FreshnessState → Bool
is_stale service s = contains service s.stale

-- `bool(self._stale & set(services))`
unfoldable pub any_stale : List String → FreshnessState → Bool
any_stale services s = some_of (λ x. contains x services) s.stale
