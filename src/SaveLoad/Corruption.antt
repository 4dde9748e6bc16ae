-- ===== src/SaveLoad/Corruption.antt =====
-- Files that were damaged, and what a load that fails leaves behind.
use jubatus.Base.{
  ℕ, ◌≡◌, ◌≢◌, ◌<◌, ◌^◌, refl, sym, ap, ◌∙◌, ◌⊎◌, inl, inr, Bool, true, false, List, [], ◌∷◌, ◌++◌,
  length, take, drop, length-append, take-append-drop, length-take, ◌==◌, ==_iff, Bool-cases,
  if◌then◌else◌, arith,
}
use jubatus.Base.Comp.{Error, Result, ok, throw, runtime_error, bind_result, Result-cases}
use jubatus.Base.Text.{Text, text_eq}
use jubatus.Crc32.{calc_crc32}
use jubatus.Crc32.Laws.{Bytes, Bytes-append, calc_crc32_detects}
use jubatus.SaveLoad.{
  Format, Version, system_data_container_version, Server, header, file_crc32, read_file,
  load_server, check_system, load_user, load_objects, compare_system, SystemData, catch_type_error,
}
use jubatus.SaveLoad.Layout.{
  Endian, first28, last16, first28-Bytes, last16-Bytes, file_crc32-header,
}
use jubatus.SaveLoad.RoundTrip.{
  Small, checksum, system_data, user_data, checksum_word, checksum_same, read_file-header,
}
use mathlib.Core.List.{append_assoc, append-nil}

regroup4 : (p q x r : Text) → p ++ (q ++ (x ++ r)) ≡ ((p ++ q) ++ x) ++ r
regroup4 p q x r = simp append_assoc

module _ {Obj Model : Type 0} (fmt : Format Obj Model) (v : Version) (en : Endian fmt)
    (small : Small v) (id : Text) (now : ℕ) (server : Server Model) where
  abbrev sys : Text
  sys = system_data fmt v en small id now server

  abbrev user : Text
  user = user_data fmt v en small id now server

  abbrev crc : ℕ
  crc = checksum fmt v en small id now server

  abbrev head : Text
  head = header fmt v crc sys user

  other_checksum :
      (xs ys : Text) (a b : ℕ)
      → Bytes xs
      → a < 256
      → b < 256
      → Bytes ys
      → a ≢ b
      → sys ++ user ≡ xs ++ (a ∷ ys)
      → (c d : Text) → c ++ d ≡ xs ++ (b ∷ ys)
      → file_crc32 head c d ≢ crc
  other_checksum xs ys a b hx ha hb hy ne whole c d e same =
      calc_crc32_detects ((f ++ l) ++ xs) ys a b 0
        (Bytes-append (f ++ l) xs
          (Bytes-append f l (first28-Bytes fmt v en) (last16-Bytes fmt v en sys user)) hx)
        ha hb hy (omega arith) ne
        (sym (sum (a ∷ ys))
          ∙ ap (λ (t : Text). calc_crc32 (f ++ (l ++ t)) 0) (sym whole)
          ∙ sym (file_crc32-header fmt v en crc sys user sys user)
          ∙ checksum_same fmt v en small id now server crc
          ∙ sym same
          ∙ file_crc32-header fmt v en crc sys user c d
          ∙ ap (λ (t : Text). calc_crc32 (f ++ (l ++ t)) 0) e
          ∙ sum (b ∷ ys))
    where
      f : Text
      f = first28 fmt v en

      l : Text
      l = last16 fmt v en sys user

      sum : (r : Text) → calc_crc32 (f ++ (l ++ (xs ++ r))) 0 ≡ calc_crc32 (((f ++ l) ++ xs) ++ r) 0
      sum r = ap (λ (t : Text). calc_crc32 t 0) (regroup4 f l xs r)

  -- When exactly one byte of the two blocks of a saved file, shorter than 2 ^ 64 bytes each, has
  -- another value, the load throws a runtime error, and the server is as it was.
  pub load_server_detects :
      (target : Server Model) (xs ys : Text) (a b : ℕ)
      → Bytes xs
      → a < 256
      → b < 256
      → Bytes ys
      → length sys < 2 ^ 64
      → length user < 2 ^ 64
      → a ≢ b
      → sys ++ user ≡ xs ++ (a ∷ ys)
      → load_server fmt v (head ++ (xs ++ (b ∷ ys))) target ≡ (throw runtime_error, target)
  unfolding load_server
  load_server_detects target xs ys a b hx ha hb hy hs hu ne whole =
      let damaged : Text = xs ++ (b ∷ ys) in
      let c : Text = take (length sys) damaged in
      let d : Text = drop (length sys) damaged in
      let total = ap length whole in
      let n : length c ≡ length sys = length-take (length sys) damaged (
        omega (
          arith,
          total,
          length-append sys user,
          length-append xs (a ∷ ys),
          length-append xs (b ∷ ys),
        )) in
      let split = take-append-drop (length sys) damaged in
      let m : length d ≡ length user = omega (
        arith,
        total,
        length-append sys user,
        length-append xs (a ∷ ys),
        length-append xs (b ∷ ys),
        ap length split,
        length-append c d,
        n,
      ) in
      let bytes : (read_file fmt v (head ++ damaged)).0 ≡ throw runtime_error =
        ap (λ (t : Text). (read_file fmt v (head ++ t)).0)
          (sym split ∙ ap (λ (t : Text). c ++ t) (sym (append-nil d)))
        ∙ read_file-header fmt v en small crc sys user c d []
            (checksum_word fmt v en small id now server) hs hu n m
        ∙ refused (file_crc32 head c d == crc) (c, d)
            (λ e. other_checksum xs ys a b hx ha hb hy ne whole c d split ((==_iff _ crc).0 e)) in
      rw bytes refl
    where
      refused :
          (t : Bool) (x : Text × Text)
          → ¬ (t ≡ true)
          → ◌≡◌ {A = Result (Text × Text)}
              (if t then ok x else throw runtime_error)
              (throw runtime_error)
      refused true x h = absurd (h refl)
      refused false x h = refl

module _ {Obj Model : Type 0} (fmt : Format Obj Model) (v : Version) where
  compare_system_keeps :
      (d : SystemData) (server : Server Model) → (compare_system fmt v d server).1 ≡ server
  unfolding compare_system
  compare_system_keeps d server = elim (Bool-cases (d.version == system_data_container_version)) [
    | inr a ↦ rw a refl
    | inl a ↦ elim (Bool-cases (text_eq d.type server.type)) [
      | inr b ↦ simp (a, b) refl
      | inl b ↦ elim (Bool-cases (text_eq d.config server.config)) [
        | inr c ↦ simp (a, b, c) refl
        | inl c ↦ simp (a, b, c) refl
      ]
    ]
  ]

  check_system_keeps : (s : Text) (server : Server Model) → (check_system fmt v s server).1 ≡ server
  unfolding check_system
  check_system_keeps s server = elim (Result-cases (fmt.unpack_system s)) [
    | inl (d, ed) ↦ rw ed (compare_system_keeps d server)
    | inr (e, ee) ↦ rw ee refl
  ]

  -- What a load that throws has done to the server.
  abbrev pub Failed : Server Model → Result (Unit {0}) × Server Model → Type 0
  Failed server r =
      (r.1 ≡ server)
      ⊎ ((o : Obj) × (f : Error) × ((fmt.driver_unpack o server.model).0 ≡ throw f)
          × (r.1 ≡ record server { model = (fmt.driver_unpack o server.model).1 }))

  load_objects-Failed :
      (objs : List Obj) (server : Server Model) (e : Error)
      → (load_objects fmt v objs server).0 ≡ throw e
      → Failed server (load_objects fmt v objs server)
  unfolding load_objects
  load_objects-Failed [] server e h = inl refl
  load_objects-Failed (o ∷ []) server e h = inl refl
  load_objects-Failed (o ∷ p ∷ q ∷ objs) server e h = inl refl
  load_objects-Failed (o ∷ p ∷ []) server e h = elim (Result-cases (fmt.convert_version o)) [
    | inr (x, ex) ↦ inl (rw ex refl)
    | inl (n, en) ↦ elim (Bool-cases (n == server.user_data_version)) [
      | inr other ↦ inl (simp (en, other) refl)
      | inl same ↦ inr (p, e, (simp (en, same) at h), simp (en, same) refl)
    ]
  ]

  catch_Failed :
      (server : Server Model) (r : Result (Unit {0}) × Server Model) (e : Error)
      → (catch_type_error r).0 ≡ throw e
      → ((f : Error) → r.0 ≡ throw f → Failed server r)
      → Failed server (catch_type_error r)
  unfolding catch_type_error
  catch_Failed server (ok a, s) e h k = absurd (ground arith)
  catch_Failed server (throw f, s) e h k = k f refl

  load_user-Failed :
      (s : Text) (server : Server Model) (e : Error)
      → (load_user fmt v s server).0 ≡ throw e
      → Failed server (load_user fmt v s server)
  unfolding load_user
  load_user-Failed s server e h = catch_Failed server _ e h λ f hf.
      elim (Result-cases (fmt.unpack_user s)) [
        | inr (x, ex) ↦ inl (rw ex refl)
        | inl (objs, eo) ↦ rw eo (load_objects-Failed objs server f (rw eo at hf))
      ]

  -- A load that fails, whatever the bytes are, leaves the server as it was, unless the driver's
  -- own `unpack` failed: then only the model may differ, and is what that call left.
  pub load_server_failure :
      (is : Text) (server : Server Model) (e : Error)
      → (load_server fmt v is server).0 ≡ throw e
      → Failed server (load_server fmt v is server)
  unfolding load_server
  load_server_failure is server e h = elim (Result-cases (read_file fmt v is).0) [
    | inr (x, ex) ↦ inl (rw ex refl)
    | inl (blocks, eb) ↦ rw eb (
        after_check (check_system fmt v blocks.0 server) blocks.1
          (check_system_keeps blocks.0 server) (rw eb at h))
  ]
    where
      after_check :
          (r : Result (Unit {0}) × Server Model) (data_block : Text)
          → r.1 ≡ server
          → (bind_result r (λ _. load_user fmt v data_block)).0 ≡ throw e
          → Failed server (bind_result r (λ _. load_user fmt v data_block))
      after_check (ok a, s) data_block k hr =
          rw k (load_user-Failed data_block server e (rw k at hr))
      after_check (throw f, s) data_block k hr = inl k
