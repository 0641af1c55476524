-- ===== src/Auth/Permissions.antt =====
-- internal/auth/permissions.go: `Decide`.
mod Tests
use bucketvcs.Prelude.{
  ℕ, zero, suc, ◌+◌, ◌-◌, ◌*◌, ◌/◌, ◌%◌, ◌^◌, ◌≤◌, ◌<◌, ◌≡◌, ◌≢◌, refl, sym, ap, ap₂, ◌∙◌, ◌↔◌, ◌⊎◌,
  inl, inr, Bool, true, false, not, ◌&&◌, ◌||◌, List, [], ◌∷◌, ◌++◌, Option, none, some, arith, ltb,
  leb, ◌==◌, if◌then◌else◌, length, take, drop, Bytes, codes, eqb, has_prefix, has_suffix, contains,
  split, is_empty, Bool-cases, Option-cases, eqb_iff, eqb_refl, All, append-nil, append_assoc,
  length-append,
}
use bucketvcs.Prelude.Assoc.{Assoc, lookup, insert, remove, lookup-insert, lookup-remove, map_laws}

-- `Perm`, in its order, and `Action` with the values outside of its constants.
pub data Perm : Type 0 where
  perm_none perm_read perm_write perm_admin : Perm

pub data Action : Type 0 where
  action_read action_write action_other : Action

-- `Actor`
pub record Actor : Type 0 where
  pub user_id : Bytes
  pub name : Bytes
  pub is_admin : Bool
  pub scopes : ℕ

pub record RepoFlags : Type 0 where
  pub public_read : Bool

unfoldable pub rank : Perm → ℕ
rank perm_none = 0
rank perm_read = 1
rank perm_write = 2
rank perm_admin = 3

-- A nil actor carries no permission.
unfoldable pub perm_of : Option Actor → Perm → Perm
perm_of none perm = perm_none
perm_of (some a) perm = perm

unfoldable pub is_admin_actor : Option Actor → Bool
is_admin_actor none = false
is_admin_actor (some a) = a.is_admin

unfoldable pub or_reason : Option Actor → Bytes → Bytes → Bool × Bytes
or_reason none anonymous known = (false, anonymous)
or_reason (some a) anonymous known = (false, known)

-- The switch on the action.
unfoldable pub decide_action : Option Actor → Perm → Action → RepoFlags → Bool × Bytes
decide_action actor perm action_read flags =
    if flags.public_read
    then (true, [])
    else if leb 1 (rank perm)
    then (true, [])
    else or_reason actor (codes "anonymous read on private repo")
        (codes "user has no read permission")
decide_action actor perm action_write flags =
    if leb 2 (rank perm)
    then (true, [])
    else or_reason actor (codes "anonymous write") (codes "user has no write permission")
decide_action actor perm action_other flags = (false, codes "unknown action")

-- `Decide`
unfoldable pub decide : Option Actor → Perm → Action → RepoFlags → Bool × Bytes
decide actor perm action flags =
    if is_admin_actor actor
    then (true, [])
    else decide_action actor (perm_of actor perm) action flags

-- Who may do what, by an actor's own permission.
abbrev pub needs : Action → RepoFlags → Perm → Bool
needs action_read flags perm = flags.public_read || leb 1 (rank perm)
needs action_write flags perm = leb 2 (rank perm)
needs action_other flags perm = false

-- `Decide` allows an administrator everything, anonymous access only reading of a public repository, and
-- any other actor what the permission covers; it gives a reason just when it denies.
decide_lem :
    (actor : Option Actor) (perm : Perm) (action : Action) (flags : RepoFlags)
    → ((decide actor perm action flags).0 ≡ elim actor [
      | none ↦ needs action flags perm_none
      | some a ↦ a.is_admin || needs action flags perm
    ])
      × (is_empty (decide actor perm action flags).1 ≡ (decide actor perm action flags).0)
unfolding decide decide_action is_admin_actor perm_of or_reason rank is_empty
decide_lem none perm action_read flags = ground arith
decide_lem none perm action_write flags = ground arith
decide_lem none perm action_other flags = ground arith
decide_lem (some a) perm action_read flags = ground arith
decide_lem (some a) perm action_write flags = ground arith
decide_lem (some a) perm action_other flags = ground arith
