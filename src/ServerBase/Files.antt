-- ===== src/ServerBase/Files.antt =====
-- What `save` and `load` leave on the disk and in the server.
use jubatus.Base.{
  ℕ, ◌+◌, ◌^◌, ◌≡◌, ◌≢◌, ◌≤◌, ◌<◌, ◌⊎◌, inl, inr, refl, ◌∙◌, Bool, true, false, [], none, some,
  length, Bool-cases, dec_lt, arith,
}
use jubatus.Base.Assoc.{
  lookup, put, erase, lookup-put, lookup-put_ne, lookup-erase, lookup-erase_ne,
}
use jubatus.Base.Comp.{runtime_error, ok, throw, Result}
use jubatus.Base.Int.{ℤ}
use jubatus.Base.Text.{Text}
use jubatus.Argv.{ServerArgv}
use jubatus.SaveLoad.{Format, Version}
use jubatus.SaveLoad.Full.{save_server-no_id, save_server-full}
use jubatus.SaveLoad.Layout.{Endian}
use jubatus.SaveLoad.RoundTrip.{
  Small, Codec, system_data, user_data, file, save_server_writes, load_server-file,
}
use jubatus.ServerBase.{
  Base, Disk, build_local_path, save, save_opened, save_locked, saved, finish_save, write_failure,
  update_saved_status, load, load_file_impl, load_contents, load_stream, close_read, cannot_read,
  update_loaded_status,
}

not_both : (r : Result Bool) → r ≡ throw runtime_error → r ≡ ok true → ⊥
not_both r e f = ground arith

module _ {Obj Model Mixer : Type 0} (fmt : Format Obj Model) (v : Version) (en : Endian fmt)
    (small : Small v) (show : ℤ → Text) (argv : ServerArgv) (id : Text) (stamp now : ℕ)
    (b : Base Model Mixer) where
  abbrev pub path : Text
  path = build_local_path show argv argv.type id

  -- The bytes that make up a saved model.
  abbrev pub contents : Text
  contents = file fmt v en small id stamp b.server

  abbrev pub size : ℕ
  size =
      48
      + length (system_data fmt v en small id stamp b.server)
      + length (user_data fmt v en small id stamp b.server)

  saved-fits :
      (room : ℕ)
      → id ≢ []
      → size ≤ room
      → ((saved fmt v id stamp room b.server).0 ≡ ok tt)
        × ((saved fmt v id stamp room b.server).1.written ≡ contents)
  saved-fits room ne fits =
      save_server_writes fmt v en small id stamp b.server (record { written = []; room = room }) ne
        fits

  pub save-done :
      (disk : Disk)
      → disk.opens ≡ true
      → disk.locks ≡ true
      → disk.closes ≡ true
      → id ≢ []
      → size ≤ disk.room
      → save fmt v show argv disk id stamp now b ≡ (
        ok true,
        update_saved_status path now (record b { files = put path contents (put path [] b.files) }),
      )
  unfolding save save_opened save_locked finish_save
  save-done disk o l c ne fits =
      let (r, w) = saved-fits disk.room ne fits in rw (o, l, r, w, c) refl

  save_fails :
      (disk : Disk)
      → disk.opens ≡ true
      → disk.locks ≡ true
      → disk.removes ≡ true
      → id ≢ []
      → (disk.room < size) ⊎ (disk.closes ≡ false)
      → (junk : Text) × (save fmt v show argv disk id stamp now b ≡ (
        throw runtime_error,
        record b { files = erase path (put path junk (put path [] b.files)) },
      ))
  unfolding save save_opened save_locked finish_save write_failure
  save_fails disk o l x ne (inl full) =
      let r =
        save_server-full fmt v en small id stamp b.server
          (record { written = []; room = disk.room }) ne full in
      ((saved fmt v id stamp disk.room b.server).1.written, rw (o, l, r, x) refl)
  save_fails disk o l x ne (inr c) = elim (dec_lt disk.room size) [
    | yes full ↦
        let r =
          save_server-full fmt v en small id stamp b.server
            (record { written = []; room = disk.room }) ne full in
        ((saved fmt v id stamp disk.room b.server).1.written, rw (o, l, r, x) refl)
    | no room ↦
        let (r, w) = saved-fits disk.room ne (omega arith) in
        ((saved fmt v id stamp disk.room b.server).1.written, rw (o, l, r, c, x) refl)
  ]

  -- How a save ends: the whole model is in the file, or there is no file, or nothing was touched.
  abbrev pub Ends : Result Bool × Base Model Mixer → Type 0
  Ends r =
      ((r.0 ≡ ok true)
        × (lookup path r.1.files ≡ some contents)
        × (r.1.last_saved_path ≡ path)
        × (r.1.last_saved ≡ now))
      ⊎ ((r.0 ≡ throw runtime_error)
          × ((lookup path r.1.files ≡ none) ⊎ (r.1.files ≡ b.files))
          × (r.1.last_saved_path ≡ b.last_saved_path)
          × (r.1.last_saved ≡ b.last_saved))

  stored :
      (r : Result Bool × Base Model Mixer)
      → Ends r
      → r.0 ≡ ok true
      → lookup path r.1.files ≡ some contents
  stored r (inl e) d = e.1
  stored r (inr e) d = absurd (not_both r.0 e.0 d)

  -- Nothing else is touched.
  abbrev pub Confined : Base Model Mixer → Type 0
  Confined after =
      (after.server ≡ b.server) × ((q : Text) → q ≢ path → lookup q after.files ≡ lookup q b.files)

  put_twice :
      (bytes q : Text)
      → q ≢ path
      → lookup q (put path bytes (put path [] b.files)) ≡ lookup q b.files
  put_twice bytes q ne =
      lookup-put_ne path q bytes (put path [] b.files) ne ∙ lookup-put_ne path q [] b.files ne

  save-closed :
      (disk : Disk)
      → disk.opens ≡ false
      → save fmt v show argv disk id stamp now b ≡ (throw runtime_error, b)
  unfolding save
  save-closed disk o = rw o refl

  -- The two ways in which a save with the lock can fail.
  save_undone :
      (disk : Disk)
      → disk.opens ≡ true
      → disk.locks ≡ true
      → disk.removes ≡ true
      → id ≢ []
      → (disk.room < size) ⊎ (disk.closes ≡ false)
      → let r = save fmt v show argv disk id stamp now b in Ends r × Confined r.1
  save_undone disk o l x ne why =
      let (junk, run) = save_fails disk o l x ne why in
      rw run (
        inr (refl, inl (lookup-erase path (put path junk (put path [] b.files))), refl, refl),
        (
          refl,
          λ q n.
              lookup-erase_ne path q (put path junk (put path [] b.files)) n ∙ put_twice junk q n,
        ),
      )

  -- When no other descriptor holds the lock of the file, the id is not empty and a file can be
  -- removed, `save` leaves no part of a model behind: it returns, with the whole model in the file and its path and
  -- time noted; or it throws a runtime error, with no file at the path, or with every
  -- file as it was, and nothing noted. On every branch the server and all other files are
  -- as before.
  pub save_atomic :
      (disk : Disk)
      → disk.locks ≡ true
      → disk.removes ≡ true
      → id ≢ []
      → let r = save fmt v show argv disk id stamp now b in Ends r × Confined r.1
  unfolding update_saved_status
  save_atomic disk l x ne = elim (Bool-cases disk.opens) [
    | inr o ↦ rw (save-closed disk o) (inr (refl, inr refl, refl, refl), (refl, λ q n. refl))
    | inl o ↦ elim (dec_lt disk.room size) [
      | yes full ↦ save_undone disk o l x ne (inl full)
      | no room ↦ elim (Bool-cases disk.closes) [
        | inr c ↦ save_undone disk o l x ne (inr c)
        | inl c ↦ rw (save-done disk o l c ne (omega arith)) (
          inl (refl, lookup-put path contents (put path [] b.files), refl, refl),
          (refl, λ q n. put_twice contents q n),
        )
      ]
    ]
  ]

  -- The file is opened for writing, which empties it, before it is locked and before the id is looked
  -- at: a `save` that throws because another one holds the lock, or because its id is empty,
  -- has emptied the file and does not remove it.
  pub save_empties :
      (disk : Disk)
      → disk.opens ≡ true
      → (disk.locks ≡ false) ⊎ (id ≡ [])
      → let r = save fmt v show argv disk id stamp now b in
        (r.0 ≡ throw runtime_error) × (lookup path r.1.files ≡ some [])
  unfolding save save_opened save_locked finish_save
  save_empties disk o (inl l) = rw (o, l) (refl, lookup-put path [] b.files)
  save_empties disk o (inr e) = elim (Bool-cases disk.locks) [
    | inr l ↦ rw (o, l) (refl, lookup-put path [] b.files)
    | inl l ↦
        rw
          (
            o,
            l,
            save_server-no_id fmt v en small id stamp b.server
                (record { written = []; room = disk.room }) e,
          )
          (refl, lookup-put path [] (put path [] b.files))
  ]

  module _ (c : Base Model Mixer) (codec : Codec fmt) where
    load-file :
        (disk : Disk) (later : ℕ)
        → disk.opens ≡ true
        → disk.closes ≡ true
        → lookup path c.files ≡ some contents
        → length (system_data fmt v en small id stamp b.server) < 2 ^ 64
        → length (user_data fmt v en small id stamp b.server) < 2 ^ 64
        → c.server.type ≡ b.server.type
        → c.server.config ≡ b.server.config
        → c.server.user_data_version ≡ b.server.user_data_version
        → load fmt v show argv disk id later c ≡ (
          ok true,
          update_loaded_status path later
              (record c { server = record c.server { model = b.server.model } }),
        )
    unfolding load load_file_impl load_contents load_stream close_read cannot_read
    load-file disk later o cl found hs hu et ec ev =
        rw
          (
            o,
            found,
            load_server-file fmt v en small id stamp b.server c.server codec hs hu et ec ev,
            cl,
          )
          refl

    -- What `save` has saved, `load` of a server with the same arguments loads: when the save has
    -- returned and the file has not changed since, a server of the same type, configuration and
    -- data version, which can open, read and close it, gets the saved model, notes the path and the
    -- time, and is otherwise as it was. The id is not empty, the blocks are shorter than 2 ^ 64 bytes and
    -- unpacking is taken to undo packing.
    pub load-save :
        (disk disk' : Disk) (later : ℕ)
        → disk.removes ≡ true
        → disk.locks ≡ true
        → id ≢ []
        → (save fmt v show argv disk id stamp now b).0 ≡ ok true
        → c.files ≡ (save fmt v show argv disk id stamp now b).1.files
        → disk'.opens ≡ true
        → disk'.closes ≡ true
        → length (system_data fmt v en small id stamp b.server) < 2 ^ 64
        → length (user_data fmt v en small id stamp b.server) < 2 ^ 64
        → c.server.type ≡ b.server.type
        → c.server.config ≡ b.server.config
        → c.server.user_data_version ≡ b.server.user_data_version
        → load fmt v show argv disk' id later c ≡ (
          ok true,
          update_loaded_status path later
              (record c { server = record c.server { model = b.server.model } }),
        )
    load-save disk disk' later x l ne done same o cl hs hu et ec ev =
        load-file disk' later o cl
          (rw same
            (stored (save fmt v show argv disk id stamp now b) (save_atomic disk l x ne).0 done))
          hs hu et ec ev
