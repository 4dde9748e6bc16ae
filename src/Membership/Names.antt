-- ===== src/Membership/Names.antt =====
-- What `revert` reads back from the names that `build_loc_str` and `build_existence_path` write.
use jubatus.Base.{ℕ, zero, suc, ◌≡◌, refl, ap, ◌∙◌, ◌∷◌, ◌++◌}
use jubatus.Base.Int.{ℤ, pos, atoi, atoi-decimal, atoi-decimal_rest}
use jubatus.Base.Text.{Text, Without, before-append, after-append, AllDigits, digits_value}
use jubatus.Membership.{revert, build_loc_str}
use mathlib.Core.List.{append-nil}
use mathlib.Core.Path.{ap₂}

-- `lexical_cast` prints a number that is not negative in decimal.
pub record Decimal (show : ℤ → Text) : Type 0 where
  pub digits : (n : ℕ) → AllDigits (show (pos n))
  pub value : (n : ℕ) → digits_value 0 (show (pos n)) ≡ n

module _ (show : ℤ → Text) (decimal : Decimal show) where
  pub atoi-show : (n : ℕ) → atoi (show (pos n)) ≡ pos n
  atoi-show n = atoi-decimal _ (decimal.digits n) ∙ ap pos (decimal.value n)

  pub revert_member :
      (ip : Text) (port : ℕ)
      → Without b'_' ip
      → revert (ip ++ (b'_' ∷ show (pos port))) ≡ (ip, pos port)
  unfolding revert
  revert_member ip port h =
      rw (before-append b'_' ip _ h, after-append b'_' ip _ h)
        (ap₂ (λ a b. (a, b)) refl (atoi-show port))

  -- The location string of a host with no underscore is split into the host and the port again,
  -- whichever virtual node's index follows, when numbers are printed in decimal.
  pub revert-build_loc_str :
      (ip : Text) (port i : ℕ)
      → Without b'_' ip
      → revert (build_loc_str show ip (pos port) i) ≡ (ip, pos port)
  unfolding revert build_loc_str
  revert-build_loc_str ip port zero h =
      rw (before-append b'_' ip _ h, after-append b'_' ip _ h, append-nil)
        (ap₂ (λ a b. (a, b)) refl (atoi-show port))
  revert-build_loc_str ip port (suc i) h =
      rw (before-append b'_' ip _ h, after-append b'_' ip _ h)
        (ap₂ (λ a b. (a, b)) refl
          (atoi-decimal_rest _ (show (pos (suc i))) (decimal.digits port)
            ∙ ap pos (decimal.value port)))
