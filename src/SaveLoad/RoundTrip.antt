-- ===== src/SaveLoad/RoundTrip.antt =====
-- What `save_server` writes, and what `load_server` makes of it.
use jubatus.Base.{
  ℕ, ◌+◌, ◌-◌, ◌≡◌, ◌≢◌, ◌≤◌, ◌<◌, ◌^◌, refl, sym, ap, ◌∙◌, Bool, true, false, not, [], ◌∷◌, ◌++◌,
  length, length-append, take-append, drop-append, ◌==◌, ==_refl, ==_iff, if◌then◌else◌, arith,
}
use jubatus.Base.Comp.{ok, throw, runtime_error, bind_result, require, pure}
use jubatus.Base.Text.{Text, text_eq, text_eq_refl, text_eq_iff}
use jubatus.Crc32.Laws.{calc_crc32-word}
use jubatus.SaveLoad.{
  Format, SystemData, Version, Server, OutFile, header, magic_number, format_version, file_crc32,
  is_read, read_file, check_versions, save_server, load_server, container, check_system, load_user,
  fwrite_helper, format_version,
}
use jubatus.SaveLoad.Layout.{
  Endian, length-header, slice-magic, slice-format, slice-major, slice-minor, slice-maintenance,
  slice-crc, slice-system_size, slice-user_size, file_crc32-header,
}
use mathlib.Core.List.{append_assoc, append-nil}

-- What msgpack and the driver pack, they unpack again; a driver's model is replaced whole.
pub record Codec {Obj Model : Type 0} (fmt : Format Obj Model) : Type 0 where
  pub system : (d : SystemData) → fmt.unpack_system (fmt.pack_system d) ≡ ok d
  pub user :
      (n : ℕ) (m : Model)
      → (o : Obj) × (p : Obj) × (fmt.unpack_user (fmt.pack_user n m) ≡ ok (o ∷ p ∷ []))
        × (fmt.convert_version o ≡ ok n)
        × ((old : Model) → fmt.driver_unpack p old ≡ (ok tt, m))

pub record Small (v : Version) : Type 0 where
  pub major : v.major < 2 ^ 32
  pub minor : v.minor < 2 ^ 32
  pub maintenance : v.maintenance < 2 ^ 32

is_read_append : (n : ℕ) (a r : Text) → n ≡ length a → is_read n (a ++ r) ≡ (ok a, r)
unfolding is_read
is_read_append n a r e = rw e (ground (arith, length-append a r, take-append a r, drop-append a r))

require_lem :
    {A : Type 0} (t : Bool) (x : A) (s : Text)
    → (bind_result (require t runtime_error s) (λ _. pure x)).0
      ≡ (if t then ok x else throw runtime_error)
require_lem true x s = refl
require_lem false x s = refl

pub fwrite_fits :
    (b : Text) (fp : OutFile)
    → length b ≤ fp.room
    → fwrite_helper b fp
      ≡ (ok true, record fp { written = fp.written ++ b; room = fp.room - length b })
unfolding fwrite_helper
fwrite_fits b fp h = ground arith

pub not_empty : (s : Text) → s ≢ [] → not (text_eq s []) ≡ true
unfolding text_eq
not_empty [] h = absurd (h refl)
not_empty (c ∷ s) h = refl

module _ {Obj Model : Type 0} (fmt : Format Obj Model) (v : Version) (en : Endian fmt)
    (small : Small v) where
  check_versions-header :
      (crc : ℕ) (sys user : Text) → check_versions fmt v (header fmt v crc sys user) ≡ true
  unfolding check_versions
  check_versions-header crc sys user =
      rw
        (
          slice-major fmt v en crc sys user,
          en.read_be32 v.major small.major,
          ==_refl v.major,
          slice-minor fmt v en crc sys user,
          en.read_be32 v.minor small.minor,
          ==_refl v.minor,
          slice-maintenance fmt v en crc sys user,
          en.read_be32 v.maintenance small.maintenance,
        )
        (==_refl v.maintenance)

  -- A file with a well-formed header is read as far as its sizes say, and the checksum decides.
  pub read_file-header :
      (crc : ℕ) (sys user a b rest : Text)
      → crc < 2 ^ 32
      → length sys < 2 ^ 64
      → length user < 2 ^ 64
      → length a ≡ length sys
      → length b ≡ length user
      → (read_file fmt v (header fmt v crc sys user ++ (a ++ (b ++ rest)))).0 ≡ (
          if file_crc32 (header fmt v crc sys user) a b == crc
          then ok (a, b)
          else throw runtime_error)
  unfolding read_file
  read_file-header crc sys user a b rest hc hs hu ea eb =
      rw
        (
          is_read_append 48 (header fmt v crc sys user) (a ++ (b ++ rest))
              (sym (length-header fmt v en crc sys user)),
          slice-magic fmt v en crc sys user,
          text_eq_refl magic_number,
          slice-format fmt v en crc sys user,
          en.read_be64 format_version (omega arith),
          check_versions-header crc sys user,
          slice-system_size fmt v en crc sys user,
          en.read_be64 (length sys) hs,
          is_read_append (length sys) a (b ++ rest) (sym ea),
          slice-user_size fmt v en crc sys user,
          en.read_be64 (length user) hu,
          is_read_append (length user) b rest (sym eb),
          slice-crc fmt v en crc sys user,
          en.read_be32 crc hc,
        )
        (require_lem (file_crc32 (header fmt v crc sys user) a b == crc) (a, b) rest)

  module _ (id : Text) (now : ℕ) (server : Server Model) where
    abbrev pub system_data : Text
    system_data = fmt.pack_system (container fmt v server id now)

    abbrev pub user_data : Text
    user_data = fmt.pack_user server.user_data_version server.model

    abbrev pub checksum : ℕ
    checksum = file_crc32 (header fmt v 0 system_data user_data) system_data user_data

    -- The bytes of a saved file.
    abbrev pub file : Text
    file = header fmt v checksum system_data user_data ++ (system_data ++ user_data)

    -- With an id that is not empty and room on the device for the header of 48 bytes and both
    -- blocks, `save_server` returns and has appended the header, with the checksum in it, and the
    -- two blocks in their order.
    pub save_server_writes :
        (fp : OutFile)
        → id ≢ []
        → 48 + length system_data + length user_data ≤ fp.room
        → let out = save_server fmt v id now server fp in
          (out.0 ≡ ok tt) × (out.1.written ≡ fp.written ++ file)
    unfolding save_server
    save_server_writes fp ne room =
        let head = header fmt v checksum system_data user_data in
        let fp1 : OutFile = record fp {
          written = fp.written ++ head;
          room = fp.room - length head;
        } in
        let fp2 : OutFile = record fp1 {
          written = fp1.written ++ system_data;
          room = fp1.room - length system_data;
        } in
        let n = length-header fmt v en checksum system_data user_data in
        rw
          (
            not_empty id ne,
            fwrite_fits head fp (omega (arith, n)),
            fwrite_fits system_data fp1 (omega (arith, n)),
            fwrite_fits user_data fp2 (omega (arith, n)),
          )
          (
            refl,
            append_assoc (fp.written ++ head) system_data user_data
                ∙ append_assoc fp.written head (system_data ++ user_data),
          )

    pub checksum_word : checksum < 2 ^ 32
    checksum_word =
        rw (file_crc32-header fmt v en 0 system_data user_data system_data user_data)
          (calc_crc32-word _ 0 (omega arith))

    pub checksum_same :
        (crc : ℕ)
        → file_crc32 (header fmt v crc system_data user_data) system_data user_data ≡ checksum
    checksum_same crc =
        file_crc32-header fmt v en crc system_data user_data system_data user_data
        ∙ sym (file_crc32-header fmt v en 0 system_data user_data system_data user_data)

    read_file-file :
        length system_data < 2 ^ 64
        → length user_data < 2 ^ 64
        → (read_file fmt v (file)).0 ≡ ok (system_data, user_data)
    read_file-file hs hu =
        ap
          (λ (t : Text).
            (read_file fmt v (header fmt v checksum system_data user_data ++ (system_data ++ t))).0)
          (sym (append-nil user_data))
        ∙ read_file-header checksum system_data user_data system_data user_data [] checksum_word hs
            hu refl refl
        ∙ rw (checksum_same checksum, ==_refl checksum) refl

    check_system_passes :
        (target : Server Model)
        → Codec fmt
        → target.type ≡ server.type
        → target.config ≡ server.config
        → check_system fmt v system_data target ≡ (ok tt, target)
    unfolding check_system container
    check_system_passes target codec et ec = rw (
      codec.system (container fmt v server id now),
      (text_eq_iff server.type target.type).1 (sym et),
      (text_eq_iff server.config target.config).1 (sym ec),
    )

    load_user_passes :
        (target : Server Model)
        → Codec fmt
        → target.user_data_version ≡ server.user_data_version
        → load_user fmt v user_data target ≡ (ok tt, record target { model = server.model })
    unfolding load_user
    load_user_passes target codec ev =
        let (o, p, eu, eo, ep) = codec.user server.user_data_version server.model in
        rw (
          eu,
          eo,
          (==_iff server.user_data_version target.user_data_version).1 (sym ev),
          ep target.model,
        )

    -- A file as `save_server` writes it, with blocks shorter than 2 ^ 64 bytes, is loaded by every
    -- server of the same type, configuration and data version, which then holds the saved model
    -- and is otherwise as it was. Unpacking is taken to undo packing.
    pub load_server-file :
        (target : Server Model)
        → Codec fmt
        → length system_data < 2 ^ 64
        → length user_data < 2 ^ 64
        → target.type ≡ server.type
        → target.config ≡ server.config
        → target.user_data_version ≡ server.user_data_version
        → load_server fmt v file target ≡ (ok tt, record target { model = server.model })
    unfolding load_server
    load_server-file target codec hs hu et ec ev =
        rw
          (
            read_file-file hs hu,
            check_system_passes target codec et ec,
            load_user_passes target codec ev,
          )
          refl
