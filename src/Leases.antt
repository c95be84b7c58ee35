-- ===== src/Leases.antt =====
-- `AccessOperationLeaseRepository` of repositories.py: one worker at a time changes a user's access.
-- The lease argument is a natural number, since the code raises it to at least 1.
pub mod Exclusive
use vpn_mediator_public.Prelude.{
  ℕ, ◌+◌, String, Bool, true, false, ◌&&◌, none, some, List, [], ◌∷◌, ◌++◌, leb, ◌==◌,
  if◌then◌else◌, str_eq, max,
}
use vpn_mediator_public.Clock.{Instant, seconds}
use vpn_mediator_public.Table.{find, update_where, count_where, delete_where}

-- A row of `AccessOperationLease`, whose key is the user.
pub record Lease : Type 0 where
  pub user_id : ℕ
  pub owner_kind : String
  pub owner_key : String
  pub lease_expires_at : Instant
  pub updated_at : Instant

abbrev pub of_user : ℕ → Lease → Bool
of_user user r = r.user_id == user

-- `user_id == user AND owner_key == owner`
abbrev pub is_owned : ℕ → String → Lease → Bool
is_owned user owner r = of_user user r && str_eq r.owner_key owner

abbrev pub lease_of : ℕ → String → String → ℕ → Instant → Lease
lease_of user kind owner lease_seconds now = record {
  user_id = user;
  owner_kind = kind;
  owner_key = owner;
  lease_expires_at = now + seconds (max lease_seconds 1);
  updated_at = now;
}

-- The row of a user is inserted, or taken over if its lease has ended.
unfoldable pub acquire : ℕ → String → String → ℕ → Instant → List Lease → List Lease × Bool
acquire user kind owner lease_seconds now t = elim (find (of_user user) t) [
  | none ↦ (t ++ lease_of user kind owner lease_seconds now ∷ [], true)
  | some existing ↦
      if leb existing.lease_expires_at now
      then (update_where (of_user user) (λ r. lease_of user kind owner lease_seconds now) t, true)
      else (t, false)
]

abbrev pub renewed : ℕ → Instant → Lease → Lease
renewed lease_seconds now r = record r {
  lease_expires_at = now + seconds (max lease_seconds 1);
  updated_at = now;
}

unfoldable pub renew : ℕ → String → ℕ → Instant → List Lease → List Lease × Bool
renew user owner lease_seconds now t = (
  update_where (is_owned user owner) (renewed lease_seconds now) t,
  count_where (is_owned user owner) t == 1,
)

unfoldable pub release : ℕ → String → List Lease → List Lease
release user owner t = delete_where (is_owned user owner) t
