-- ===== src/Compatibility/Printable.antt =====
-- The codes that src/steam_agent/compatibility.py gives as reasons and conditions are printable texts.
use Prim.Native.Char.{Char, code}
use Prim.Native.String.{◌++◌ as append}
use text.Mathlib.TextLemmas.{nil-append, cons-append}
use steam_cli.Prelude.{
  ◌+◌, ◌≤◌, Bool, true, false, not, ◌||◌, ◌==◌, String, ◌≡◌, refl, ap, ◌∙◌, arith,
}
use steam_cli.Checked.{len, any_char}
use steam_cli.Compatibility.Texts.{lower_alnum, is_mark, is_slug, is_bad_text}

-- The characters of slugs and codes: `[a-z0-9._:-]`.
abbrev pub is_code_char : Char → Bool
is_code_char c = lower_alnum c || is_mark c || (code c == b':')

-- `str.isprintable` is true of these characters.
abbrev pub PrintsCodes : (Char → Bool) → Type 0
PrintsCodes is_printable = (c : Char) → is_code_char c ≡ true → is_printable c ≡ true

any_char-le :
    (p q : Char → Bool)
    → ((c : Char) → q c ≡ true → p c ≡ true)
    → (s : String) → any_char p s ≡ false
    → any_char q s ≡ false
unfolding any_char
any_char-le p q h String.[] k = refl
any_char-le p q h (String.◌∷◌ c s) k = ground (arith, h c, any_char-le p q h s)

any_char-append :
    (p : Char → Bool) (s t : String) → any_char p (append s t) ≡ (any_char p s || any_char p t)
unfolding any_char
any_char-append p String.[] t = ap (any_char p) (nil-append t)
any_char-append p (String.◌∷◌ c s) t =
    ap (any_char p) (cons-append c s t) ∙ ground (arith, any_char-append p s t)

len-append : (s t : String) → len (append s t) ≡ len s + len t
unfolding len
len-append String.[] t = ap len (nil-append t) ∙ omega arith
len-append (String.◌∷◌ c s) t = ap len (cons-append c s t) ∙ omega (arith, len-append s t)

module _ (is_printable : Char → Bool) (prints : PrintsCodes is_printable) where
  pub code-is_bad_text :
      (s : String)
      → any_char (λ c. not (is_code_char c)) s ≡ false
      → 1 ≤ len s
      → len s ≤ 256
      → is_bad_text is_printable s ≡ false
  unfolding is_bad_text
  code-is_bad_text s h low high = ground (
    arith,
    any_char-le (λ c. not (is_code_char c)) (λ c. not (is_printable c))
        (λ c k. ground (arith, prints c)) s,
  )

  -- A slug after a prefix.
  pub append-is_bad_text :
      (s t : String)
      → any_char (λ c. not (is_code_char c)) s ≡ false
      → 1 ≤ len s
      → len s ≤ 192
      → is_slug t ≡ true
      → is_bad_text is_printable (append s t) ≡ false
  unfolding is_slug
  append-is_bad_text s t h low high slug =
      code-is_bad_text (append s t)
        (ground (
          arith,
          any_char-append (λ c. not (is_code_char c)) s t,
          any_char-le (λ c. not (lower_alnum c || is_mark c)) (λ c. not (is_code_char c))
              (λ c k. ground arith) t,
        ))
        (omega (arith, len-append s t)) (ground (arith, len-append s t))
