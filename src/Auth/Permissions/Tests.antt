-- ===== src/Auth/Permissions/Tests.antt =====
-- Runs of `Decide`.
use bucketvcs.Prelude.{◌≡◌, refl, false, none, some, codes}
use bucketvcs.Auth.Permissions.{
  Perm, perm_none, perm_read, perm_write, Action, action_read, action_write, Actor, RepoFlags,
  decide,
}

abbrev ann : Actor
ann = record { user_id = codes "u1"; name = codes "ann"; is_admin = false; scopes = 0 }

abbrev private : RepoFlags
private = record { public_read = false }

nobody_reads :
    decide none perm_write action_read private ≡ (false, codes "anonymous read on private repo")
unfolding decide bucketvcs.Auth.Permissions.is_admin_actor bucketvcs.Auth.Permissions.decide_action
    bucketvcs.Auth.Permissions.rank bucketvcs.Auth.Permissions.perm_of
    bucketvcs.Auth.Permissions.or_reason
nobody_reads = refl

ann_writes : (decide (some ann) perm_read action_write private).0 ≡ false
unfolding decide bucketvcs.Auth.Permissions.is_admin_actor bucketvcs.Auth.Permissions.decide_action
    bucketvcs.Auth.Permissions.rank bucketvcs.Auth.Permissions.perm_of
    bucketvcs.Auth.Permissions.or_reason
ann_writes = refl
