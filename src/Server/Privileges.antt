-- ===== src/Server/Privileges.antt =====
-- Which user and group the service of src/Server.cpp runs as.
use worker_log.Base.{◌≡◌, ◌≢◌, refl, true, some, [], ◌∷◌, Bytes, ==_iff, ◌==◌}
use worker_log.Server.{Identity, Users, IsUsers, setting_user, error_setgid, drop_privileges}

module _ (users : Users) (L : IsUsers users) where
  -- Started as root, with a user in the configuration who is known, is not root and has another group,
  -- the service becomes that user but keeps the group of root: by
  -- the time that the group is set the right to do so is gone, which is logged.
  pub drop_privileges_group :
      (name : Bytes) (me pw : Identity)
      → users.getpwnam name ≡ some pw
      → me.uid ≡ 0
      → pw.uid ≢ 0
      → me.gid ≢ pw.gid
      → drop_privileges users name me
        ≡ (record me { uid = pw.uid }, setting_user ∷ error_setgid ∷ [])
  unfolding drop_privileges
  drop_privileges_group name me pw found root other group =
      let is_root : (me.uid == 0) ≡ true = (==_iff me.uid 0).1 root in
      rw
        (
          is_root,
          drop_privileges,
          found,
          L.setuid_root me pw.uid root,
          L.setgid_refused (record me { uid = pw.uid }) pw.gid other group,
        )
        refl
