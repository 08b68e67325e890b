-- ===== src/Main/Serves.antt =====
-- What has been done when the program of src/main.cpp serves, and what a test of the configuration says.
use worker_log.Base.{
  ℕ, ◌*◌, ◌%◌, ◌^◌, ◌<◌, ◌≡◌, subst, ap, refl, sym, true, Option, none, some, List, Bytes, length,
  ltb, if◌then◌else◌, Bool-cases, inl, inr, ◌⊎◌,
}
use worker_log.CgiService.Database.{MongoDatabase, IsMongoDatabase, check_log_database_again}
use worker_log.CgiService.Launch.{Launch, thrown, quits, serves, launch, is_negative}
use worker_log.CgiService.Launch.Serves.{IsServing, launch-IsServing}
use worker_log.Config.{Settings, fresh}
use worker_log.Config.Load.{Loaded, loaded, exited, crashed, not_found}
use worker_log.External.Files.{FileSystem}
use worker_log.External.Xml.{Xml}
use worker_log.Main.{
  Flag, Options, defaults, read_flags, serving, Host, children_of, after_launch, serve_as,
  with_socket, become, serve_with, after_config, after_load, after_flags, main,
}
use worker_log.Main.Passed.{after_config-serving}
use worker_log.Server.Locks.{is_started, start-is_started, IsLocked, take_lock-IsLocked}

-- The program was a daemon before, or no lock file was asked for, or it was opened, and was
-- not there before or no other process of the program's name was found.
abbrev pub IsAlone : {X : Xml} {F : FileSystem} {M : MongoDatabase} → Host X F M → Settings → Type 0
IsAlone h c = (h.ppid ≡ 1) ⊎ IsLocked c.lock_file h.surroundings

-- A program that serves `n` threads on the database `d` with the settings `c`.
pub record IsUp (X : Xml) (F : FileSystem) (M : MongoDatabase) (h : Host X F M) (c : Settings)
    (d : M.Data) (n : ℕ) : Type 0 where
  pub address : h.is_uri c.mongo_log_url ≡ true
  pub collection : M.has_collection d c.mongo_log_collection_impression ≡ some true
  pub children : ℕ
  pub set : children ≡ children_of c.server_children h.old_children
  pub count : n ≡ (if is_negative children then 0 else children)
  pub socket : h.open_socket c.server_socket_path (children * 4 % 2 ^ 32) ≡ true
  pub made : (i : ℕ) → i < n → h.creates i ≡ true
  pub alone : IsAlone h c

serving-inj :
    {D : Type 0} {c c' : Settings} {d d' : D} {n n' : ℕ}
    → serving c d n ≡ serving c' d' n'
    → (c ≡ c') × (d ≡ d') × (n ≡ n')
serving-inj e = (cc, cc, cc)

module _ (X : Xml) (F : FileSystem) (M : MongoDatabase) (L : IsMongoDatabase M)
    (h : Host X F M) where
  after_launch-IsUp :
      (c c' : Settings) (children : ℕ) (d : M.Data) (n : ℕ) (l : Launch M.Data)
      → IsAlone h c
      → children ≡ children_of c.server_children h.old_children
      → l
        ≡ launch M h.is_uri c.mongo_log_url c.mongo_log_collection_impression c.server_socket_path
            children h.open_socket h.creates h.database
      → after_launch X F M h c l ≡ serving c' d n
      → IsUp X F M h c' d n
  after_launch-IsUp c c' children d n thrown alone set from e = cc
  after_launch-IsUp c c' children d n (quits message) alone set from e = cc
  after_launch-IsUp c c' children d n (serves d₁ n₁) alone set from e =
      let (same, base, threads) = serving-inj e in
      let up : IsServing M h.is_uri c.mongo_log_url c.mongo_log_collection_impression
          c.server_socket_path children h.open_socket h.creates h.database d₁ n₁ =
        launch-IsServing M h.is_uri c.mongo_log_url c.mongo_log_collection_impression
          c.server_socket_path children h.open_socket h.creates h.database d₁ n₁ (sym from) in
      let found =
        (check_log_database_again M L c.mongo_log_collection_impression h.database d₁
          up.checked).0 in
      let here : IsUp X F M h c d₁ n₁ = record {
        address = up.address;
        collection = found;
        children = children;
        set = set;
        count = up.count;
        socket = up.socket;
        made = up.made;
        alone = alone;
      } in
      rw (sym same, sym base, sym threads) here

  serve_as-IsUp :
      (c c' : Settings) (children : Option ℕ) (d : M.Data) (n : ℕ)
      → IsAlone h c
      → c.server_children ≡ children
      → serve_as X F M h c children ≡ serving c' d n
      → IsUp X F M h c' d n
  serve_as-IsUp c c' children d n alone set e =
      after_launch-IsUp c c' (children_of children h.old_children) d n _ alone
        (ap (λ k. children_of k h.old_children) (sym set)) refl e

  serve_with-IsUp :
      (sock_path : Bytes) (c c' : Settings) (d : M.Data) (n : ℕ)
      → IsAlone h c
      → serve_with X F M h sock_path c ≡ serving c' d n
      → IsUp X F M h c' d n
  serve_with-IsUp sock_path c c' d n alone e =
      let lock : c.lock_file ≡ (with_socket sock_path c).lock_file =
        elim (Bool-cases (ltb 8 (length sock_path))) [
          | inl long ↦ rw long refl
          | inr short ↦ rw short refl
        ] in
      let alone' : IsAlone h (with_socket sock_path c) =
        subst (λ file. (h.ppid ≡ 1) ⊎ IsLocked file h.surroundings) lock alone in
      serve_as-IsUp (with_socket sock_path c) c' _ d n alone' refl e

  become-IsAlone : (c : Settings) → is_started (become X F M h c) ≡ true → IsAlone h c
  become-IsAlone c up =
      elim (start-is_started h.users c.user c.lock_file h.ppid h.surroundings h.me h.fork up) [
        | inl daemon ↦ inl daemon
        | inr locked ↦ inr (take_lock-IsLocked c.lock_file h.surroundings locked)
      ]

  after_config-IsUp :
      (o : Options) (c c' : Settings) (d : M.Data) (n : ℕ)
      → after_config X F M h o c ≡ serving c' d n
      → IsUp X F M h c' d n
  after_config-IsUp o c c' d n e =
      let (up, served) = after_config-serving X F M h o c c' d n e in
      serve_with-IsUp o.sock_path c c' d n (become-IsAlone c up) served

  after_load-IsUp :
      (o : Options) (c' : Settings) (l : Loaded F) (d : M.Data) (n : ℕ)
      → after_load X F M h o l ≡ serving c' d n
      → IsUp X F M h c' d n
  after_load-IsUp o c' exited d n e = cc
  after_load-IsUp o c' crashed d n e = cc
  after_load-IsUp o c' not_found d n e = after_config-IsUp o fresh c' d n e
  after_load-IsUp o c' (loaded c counters files) d n e = after_config-IsUp o c c' d n e

  after_flags-IsUp :
      (o : Option Options) (c' : Settings) (d : M.Data) (n : ℕ)
      → after_flags X F M h o ≡ serving c' d n
      → IsUp X F M h c' d n
  after_flags-IsUp none c' d n e = cc
  after_flags-IsUp (some o) c' d n e = after_load-IsUp o c' _ d n e

  -- When the program serves, init is its parent, or the settings name no lock file, or it has opened that
  -- file, which was not there before or beside which no other process of the program's name was found;
  -- the driver took the address of the log and the collection of the impressions is there, the socket is
  -- open, and every thread was created, as many as the settings have children, or as the memory of that
  -- number holds where nothing has set it, and none where the number is negative.
  pub main-IsUp :
      (flags : List Flag) (c : Settings) (d : M.Data) (n : ℕ)
      → main X F M h flags ≡ serving c d n
      → IsUp X F M h c d n
  unfolding main
  main-IsUp flags c d n e = after_flags-IsUp (read_flags flags defaults) c d n e
