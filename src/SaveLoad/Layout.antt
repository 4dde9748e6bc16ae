-- ===== src/SaveLoad/Layout.antt =====
-- Where the fields of the header stand, and what reading a file with a given header does.
use jubatus.Base.{
  ℕ, zero, suc, ◌+◌, ◌≡◌, ◌<◌, ◌^◌, refl, sym, ap, ◌∙◌, [], ◌∷◌, ◌++◌, length, take, length-append,
  take-append, take-length, arith,
}
use jubatus.Base.Text.{Text}
use jubatus.Crc32.{calc_crc32}
use jubatus.Crc32.Laws.{calc_crc32-append, Bytes, Bytes-append}
use jubatus.SaveLoad.{Format, Version, header, slice, magic_number, format_version, file_crc32}
use mathlib.Core.List.{append_assoc, append-nil}

-- The codecs keep their documented width, and read back what fits it.
pub record Endian {Obj Model : Type 0} (fmt : Format Obj Model) : Type 0 where
  pub width32 : (n : ℕ) → length (fmt.be32 n) ≡ 4
  pub bytes32 : (n : ℕ) → Bytes (fmt.be32 n)
  pub bytes64 : (n : ℕ) → Bytes (fmt.be64 n)
  pub width64 : (n : ℕ) → length (fmt.be64 n) ≡ 8
  pub read_be32 : (n : ℕ) → n < 2 ^ 32 → fmt.read32 (fmt.be32 n) ≡ n
  pub read_be64 : (n : ℕ) → n < 2 ^ 64 → fmt.read64 (fmt.be64 n) ≡ n

-- A slice that begins behind a first piece is a slice of the rest.
slice_skip : (p r : Text) (off n k : ℕ) → off ≡ length p + k → slice off n (p ++ r) ≡ slice k n r
slice_skip [] r off n k e = let e' : off ≡ k = omega arith in rw e'
slice_skip (x ∷ p) r zero n k e = absurd (omega arith)
slice_skip (x ∷ p) r (suc off) n k e = slice_skip p r off n k (omega arith)

slice_here : (p r : Text) (n : ℕ) → length p ≡ n → slice 0 n (p ++ r) ≡ p
slice_here p r n e = rw (← e) (take-append p r)

take_more : (p r : Text) (n k : ℕ) → n ≡ length p + k → take n (p ++ r) ≡ p ++ take k r
take_more [] r n k e = let e' : n ≡ k = omega arith in rw e'
take_more (x ∷ p) r zero k e = absurd (omega arith)
take_more (x ∷ p) r (suc n) k e = ap (◌∷◌ x) (take_more p r n k (omega arith))

take_all : (p : Text) (n : ℕ) → n ≡ length p → take n p ≡ p
take_all p n e = rw e (take-length p)

module _ {Obj Model : Type 0} (fmt : Format Obj Model) (v : Version) (en : Endian fmt) where
  abbrev pub first28 : Text
  first28 =
      magic_number
      ++ (fmt.be64 format_version
          ++ (fmt.be32 v.major ++ (fmt.be32 v.minor ++ fmt.be32 v.maintenance)))

  abbrev pub last16 : Text → Text → Text
  last16 sys user = fmt.be64 (length sys) ++ fmt.be64 (length user)

  pub first28-Bytes : Bytes first28
  first28-Bytes = Bytes-append magic_number _ (omega arith) (
      Bytes-append (fmt.be64 format_version) _ (en.bytes64 format_version) (
        Bytes-append (fmt.be32 v.major) _ (en.bytes32 v.major)
          (Bytes-append (fmt.be32 v.minor) _ (en.bytes32 v.minor) (en.bytes32 v.maintenance))))

  pub last16-Bytes : (sys user : Text) → Bytes (last16 sys user)
  last16-Bytes sys user =
      Bytes-append (fmt.be64 (length sys)) _ (en.bytes64 (length sys)) (en.bytes64 (length user))

  length-first28 : length first28 ≡ 28
  length-first28 = omega (
    arith,
    length-append magic_number (
        fmt.be64 format_version
        ++ (fmt.be32 v.major ++ (fmt.be32 v.minor ++ fmt.be32 v.maintenance))),
    length-append (fmt.be64 format_version)
        (fmt.be32 v.major ++ (fmt.be32 v.minor ++ fmt.be32 v.maintenance)),
    length-append (fmt.be32 v.major) (fmt.be32 v.minor ++ fmt.be32 v.maintenance),
    length-append (fmt.be32 v.minor) (fmt.be32 v.maintenance),
    en.width32 v.major,
    en.width32 v.minor,
    en.width32 v.maintenance,
    en.width64 format_version,
  )

  length-last16 : (sys user : Text) → length (last16 sys user) ≡ 16
  length-last16 sys user = omega (
    arith,
    length-append (fmt.be64 (length sys)) (fmt.be64 (length user)),
    en.width64 (length sys),
    en.width64 (length user),
  )

  module _ (crc : ℕ) (sys user : Text) where
    abbrev h : Text
    h = header fmt v crc sys user

    header_pieces : h ≡ first28 ++ (fmt.be32 crc ++ last16 sys user)
    unfolding header
    header_pieces = simp append_assoc

    pub length-header : length h ≡ 48
    length-header = rw header_pieces (
        omega (
          arith,
          length-append first28 (fmt.be32 crc ++ last16 sys user),
          length-append (fmt.be32 crc) (last16 sys user),
          length-first28,
          length-last16 sys user,
          en.width32 crc,
        ))

    pub slice-magic : take 8 h ≡ magic_number
    unfolding header
    slice-magic = refl

    pub slice-format : slice 8 8 h ≡ fmt.be64 format_version
    unfolding header
    slice-format =
        slice_skip magic_number _ 8 8 0 refl
        ∙ slice_here (fmt.be64 format_version) _ 8 (en.width64 format_version)

    behind_format :
        (off n k : ℕ)
        → off ≡ 16 + k
        → slice off n h
          ≡ slice k n (
              fmt.be32 v.major
              ++ (fmt.be32 v.minor
                  ++ (fmt.be32 v.maintenance ++ (fmt.be32 crc ++ last16 sys user))))
    unfolding header
    behind_format off n k e =
        slice_skip magic_number _ off n (8 + k) (omega arith)
        ∙ slice_skip (fmt.be64 format_version) _ (8 + k) n k
            (omega (arith, en.width64 format_version))

    pub slice-major : slice 16 4 h ≡ fmt.be32 v.major
    slice-major = behind_format 16 4 0 refl ∙ slice_here (fmt.be32 v.major) _ 4 (en.width32 v.major)

    pub slice-minor : slice 20 4 h ≡ fmt.be32 v.minor
    slice-minor =
        behind_format 20 4 4 refl
        ∙ slice_skip (fmt.be32 v.major) _ 4 4 0 (omega (arith, en.width32 v.major))
        ∙ slice_here (fmt.be32 v.minor) _ 4 (en.width32 v.minor)

    pub slice-maintenance : slice 24 4 h ≡ fmt.be32 v.maintenance
    slice-maintenance =
        behind_format 24 4 8 refl
        ∙ slice_skip (fmt.be32 v.major) _ 8 4 4 (omega (arith, en.width32 v.major))
        ∙ slice_skip (fmt.be32 v.minor) _ 4 4 0 (omega (arith, en.width32 v.minor))
        ∙ slice_here (fmt.be32 v.maintenance) _ 4 (en.width32 v.maintenance)

    behind_versions :
        (off n k : ℕ) → off ≡ 28 + k → slice off n h ≡ slice k n (fmt.be32 crc ++ last16 sys user)
    behind_versions off n k e =
        ap (slice off n) header_pieces
        ∙ slice_skip first28 _ off n k (omega (arith, e, length-first28))

    pub slice-crc : slice 28 4 h ≡ fmt.be32 crc
    slice-crc = behind_versions 28 4 0 refl ∙ slice_here (fmt.be32 crc) _ 4 (en.width32 crc)

    behind_crc : (off n k : ℕ) → off ≡ 32 + k → slice off n h ≡ slice k n (last16 sys user)
    behind_crc off n k e =
        behind_versions off n (4 + k) (omega arith)
        ∙ slice_skip (fmt.be32 crc) _ (4 + k) n k (omega (arith, en.width32 crc))

    pub slice-system_size : slice 32 8 h ≡ fmt.be64 (length sys)
    slice-system_size =
        behind_crc 32 8 0 refl ∙ slice_here (fmt.be64 (length sys)) _ 8 (en.width64 (length sys))

    pub slice-user_size : slice 40 8 h ≡ fmt.be64 (length user)
    slice-user_size =
        behind_crc 40 8 8 refl
        ∙ slice_skip (fmt.be64 (length sys)) _ 8 8 0 (omega (arith, en.width64 (length sys)))
        ∙ take_all (fmt.be64 (length user)) 8 (sym (en.width64 (length user)))

    slice-sizes : slice 32 16 h ≡ last16 sys user
    slice-sizes =
        behind_crc 32 16 0 refl ∙ take_all (last16 sys user) 16 (sym (length-last16 sys user))

    slice-versions : take 28 h ≡ first28
    slice-versions =
        ap (take 28) header_pieces
        ∙ take_more first28 _ 28 0 (omega (arith, length-first28))
        ∙ append-nil first28

    -- The checksum is that of the file without the checksum's own bytes, in one piece.
    pub file_crc32-header :
        (a b : Text) → file_crc32 h a b ≡ calc_crc32 (first28 ++ (last16 sys user ++ (a ++ b))) 0
    unfolding file_crc32
    file_crc32-header a b = rw (
      slice-versions,
      slice-sizes,
      calc_crc32-append first28 (last16 sys user ++ (a ++ b)) 0,
      calc_crc32-append (last16 sys user) (a ++ b) (calc_crc32 first28 0),
      calc_crc32-append a b (calc_crc32 (last16 sys user) (calc_crc32 first28 0)),
    )
