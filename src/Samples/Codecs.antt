-- ===== src/Samples/Codecs.antt =====
-- Simple codecs for the model file, with a model of one number.
use jubatus.Base.{ℕ, ◌≡◌, refl, [], ◌∷◌, ◌++◌, length, take, drop, take-append, drop-append, arith}
use jubatus.Base.Comp.{Result, ok, throw, type_error}
use jubatus.Base.Text.{Text}
use jubatus.Samples.Notation.{
  big_endian, from_big_endian, length-big_endian, big_endian-Bytes, from_big_endian-big_endian,
}
use jubatus.SaveLoad.{SystemData, Format, Version}
use jubatus.SaveLoad.Layout.{Endian}
use jubatus.SaveLoad.RoundTrip.{Codec, Small}

abbrev pub pack_system : SystemData → Text
pack_system d =
    d.version ∷ d.timestamp ∷ length d.type ∷ length d.id ∷ (d.type ++ (d.id ++ d.config))

abbrev pub unpack_system : Text → Result SystemData
unpack_system (v ∷ t ∷ n ∷ m ∷ s) = ok (record {
  version = v;
  timestamp = t;
  type = take n s;
  id = take m (drop n s);
  config = drop m (drop n s);
})
unpack_system _ = throw type_error

unpack_system-pack_system : (d : SystemData) → unpack_system (pack_system d) ≡ ok d
unpack_system-pack_system d =
    rw
      (
        take-append d.type (d.id ++ d.config),
        drop-append d.type (d.id ++ d.config),
        take-append d.id d.config,
        drop-append d.id d.config,
      )
      refl

-- The driver's model is one number.
abbrev pub sample : Format ℕ ℕ
sample = record {
  be32 = big_endian 4;
  be64 = big_endian 8;
  read32 = from_big_endian 0;
  read64 = from_big_endian 0;
  pack_system = pack_system;
  unpack_system = unpack_system;
  pack_user = λ n m. n ∷ m ∷ [];
  unpack_user = λ s. ok s;
  convert_version = λ o. ok o;
  driver_unpack = λ o m. (ok tt, o);
}

pub sample-Endian : Endian sample
sample-Endian = record {
  bytes32 = big_endian-Bytes 4;
  bytes64 = big_endian-Bytes 8;
  width32 = length-big_endian 4;
  width64 = length-big_endian 8;
  read_be32 = λ n h. from_big_endian-big_endian 4 n (omega arith);
  read_be64 = λ n h. from_big_endian-big_endian 8 n (omega arith);
}

pub sample-Codec : Codec sample
sample-Codec = record {
  system = unpack_system-pack_system;
  user = λ n m. (n, m, refl, refl, λ old. refl);
}

abbrev pub version : Version
version = record { major = 0; minor = 6; maintenance = 4 }

pub version-Small : Small version
version-Small = omega arith
