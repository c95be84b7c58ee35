-- ===== src/Leases/Exclusive.antt =====
-- A lease on a user's access keeps every other worker out until it ends.
use vpn_mediator_public.Prelude.{
  ℕ, ◌<◌, ◌≡◌, ◌≢◌, refl, sym, ◌∙◌, String, Bool, false, some, List, [], ◌∷◌, ◌++◌, leb, ◌==◌,
  str_eq, eq_iff, All, arith, Bool-cases, Option-cases, inl, inr,
}
use vpn_mediator_public.Clock.{Instant}
use vpn_mediator_public.Table.{find, delete_where}
use vpn_mediator_public.Table.Rows.{find-passes}
use vpn_mediator_public.Table.Counts.{find-update_other}
use vpn_mediator_public.Leases.{
  Lease, of_user, is_owned, lease_of, acquire, renewed, renew, release,
}

-- What workers may call.
pub data Call : Type 0 where
  acquire_call : (user_id : ℕ) (kind owner : String) (lease_seconds : ℕ) → Call
  renew_call : (user_id : ℕ) (owner : String) (lease_seconds : ℕ) → Call
  release_call : (user_id : ℕ) (owner : String) → Call

abbrev pub owner_of : Call → String
owner_of (acquire_call user kind owner lease_seconds) = owner
owner_of (renew_call user owner lease_seconds) = owner
owner_of (release_call user owner) = owner

unfoldable pub call : Call → Instant → List Lease → List Lease
call (acquire_call user kind owner lease_seconds) now t =
    (acquire user kind owner lease_seconds now t).0
call (renew_call user owner lease_seconds) now t = (renew user owner lease_seconds now t).0
call (release_call user owner) now t = release user owner t

unfoldable pub calls : List (Call × Instant) → List Lease → List Lease
calls [] t = t
calls ((c, now) ∷ cs) t = calls cs (call c now t)

-- A call of another worker, before the lease ends.
abbrev pub IsForeign : Lease → Call × Instant → Type 0
IsForeign r (c, now) = (owner_of c ≢ r.owner_key) × (now < r.lease_expires_at)

find-kept :
    (p : Lease → Bool) (t added : List Lease) (r : Lease)
    → find p t ≡ some r
    → find p (t ++ added) ≡ some r
find-kept p [] added r h = cc
find-kept p (s ∷ t) added r h = ground (arith, find-kept p t added r)

find-delete_other :
    (p q : Lease → Bool) (t : List Lease) (r : Lease)
    → find p t ≡ some r
    → q r ≡ false
    → find p (delete_where q t) ≡ some r
find-delete_other p q [] r h other = cc
find-delete_other p q (s ∷ t) r h other = elim (Bool-cases (p s)) [
  | inl hit ↦ let e : s ≡ r = ground (arith, hit) in rw (e, other) (ground (arith, hit, e))
  | inr miss ↦ ground (arith, find-delete_other p q t r, miss)
]

-- A row of another owner is not the caller's.
not_owned :
    (user : ℕ) (owner : String) (r : Lease) → owner ≢ r.owner_key → is_owned user owner r ≡ false
not_owned user owner r ne = elim (Bool-cases (str_eq r.owner_key owner)) [
  | inl same ↦ absurd (ground (arith, same, eq_iff r.owner_key owner))
  | inr other ↦ ground (arith, other)
]

call-keeps :
    (c : Call) (now : Instant) (user : ℕ) (t : List Lease) (r : Lease)
    → find (of_user user) t ≡ some r
    → IsForeign r (c, now)
    → find (of_user user) (call c now t) ≡ some r
unfolding call acquire renew release
call-keeps (acquire_call other kind owner lease) now user t r held foreign =
    elim (Option-cases (find (of_user other) t)) [
      | inl missing ↦ ground (
        arith,
        missing,
        find-kept (of_user user) t (lease_of other kind owner lease now ∷ []) r held,
      )
      | inr (s, found) ↦ elim (Bool-cases (leb s.lease_expires_at now)) [
        | inr running ↦ ground (arith, found, running, held)
        | inl ended ↦ elim (Bool-cases (other == user)) [
          | inl same ↦
              let e : other ≡ user = ground arith in
              let found' : find (of_user user) t ≡ some s = rw (← e) found in
              let e' : some s ≡ some r = sym found' ∙ held in
              absurd (ground (arith, e', ended, foreign.1))
          | inr different ↦
              let passes = find-passes (of_user user) t r held in
              let kept =
                find-update_other (of_user user) (of_user other)
                  (λ q. lease_of other kind owner lease now) t r (λ q e. ground arith) held
                  (ground (arith, passes)) in
              ground (arith, found, ended, kept)
        ]
      ]
    ]
call-keeps (renew_call other owner lease) now user t r held foreign =
    find-update_other (of_user user) (is_owned other owner) (renewed lease now) t r (λ s e. refl)
      held (not_owned other owner r foreign.0)
call-keeps (release_call other owner) now user t r held foreign =
    find-delete_other (of_user user) (is_owned other owner) t r held
      (not_owned other owner r foreign.0)

-- While a worker's lease on a user's access runs, whatever other workers call, in whatever order and
-- however often, the lease stays theirs, unchanged, and until it ends nobody acquires it.
pub lease_exclusive :
    (cs : List (Call × Instant)) (user : ℕ) (t : List Lease) (r : Lease)
    → find (of_user user) t ≡ some r
    → All (IsForeign r) cs
    → (find (of_user user) (calls cs t) ≡ some r)
      × ((kind owner : String) (lease_seconds : ℕ) (now : Instant)
          → now < r.lease_expires_at
          → acquire user kind owner lease_seconds now (calls cs t) ≡ (calls cs t, false))
unfolding calls acquire
lease_exclusive [] user t r held foreign = (held, λ kind owner lease now h. ground (arith, held))
lease_exclusive ((c, now) ∷ cs) user t r held foreign =
    lease_exclusive cs user (call c now t) r (call-keeps c now user t r held foreign.0) foreign.1
