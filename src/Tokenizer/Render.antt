-- ===== src/Tokenizer/Render.antt =====
-- Tokens written out and read back.
use mathlib.Core.List.{append-nil, append_assoc}
use redborder_monitor.Base.{
  ℕ, zero, suc, ◌<◌, ◌≡◌, refl, ap, ◌∙◌, Bool, true, false, List, [], ◌∷◌, ◌++◌, All, arith, length,
  length-append,
}
use redborder_monitor.Base.Text.{Bytes, codes, is_space}
use redborder_monitor.Base.Result.{ok}
use redborder_monitor.Tokenizer.{
  TokenType, number, variable, operator, lparen, rparen, Token, token, skipped, lexed,
  is_number_byte, is_word_start, is_word_byte, is_operator_byte, take_while, drop_while, lex,
  tokenize_loop, tokenize,
}

-- every byte passes the test
abbrev pub Passes : (ℕ → Bool) → Bytes → Type 0
Passes p = All (λ c. p c ≡ true)

-- The texts that a token of each kind may have.
abbrev pub IsValue : TokenType → Bytes → Type 0
IsValue number [] = ⊥
IsValue number (c ∷ s) = (is_number_byte c ≡ true) × Passes is_number_byte s
IsValue variable [] = ⊥
IsValue variable (c ∷ s) = (is_word_start c ≡ true) × Passes is_word_byte s
IsValue operator v = (c : ℕ) × (v ≡ c ∷ []) × (is_operator_byte c ≡ true)
IsValue lparen v = v ≡ codes "("
IsValue rparen v = v ≡ codes ")"

abbrev pub IsToken : Token → Type 0
IsToken t = IsValue t.type t.value

-- the tokens, each with a space behind it
abbrev pub render : List Token → Bytes
render [] = []
render (t ∷ ts) = t.value ++ b' ' ∷ render ts

take_while-Passes :
    (p : ℕ → Bool) (s rest : Bytes)
    → p b' ' ≡ false
    → Passes p s
    → take_while p (s ++ b' ' ∷ rest) ≡ s
unfolding take_while
take_while-Passes p [] rest stop h = rw stop
take_while-Passes p (c ∷ s) rest stop h = rw (h.0, take_while-Passes p s rest stop h.1)

drop_while-Passes :
    (p : ℕ → Bool) (s rest : Bytes)
    → p b' ' ≡ false
    → Passes p s
    → drop_while p (s ++ b' ' ∷ rest) ≡ b' ' ∷ rest
unfolding drop_while
drop_while-Passes p [] rest stop h = rw stop
drop_while-Passes p (c ∷ s) rest stop h = rw h.0 (drop_while-Passes p s rest stop h.1)

number_not_space : (c : ℕ) → is_number_byte c ≡ true → is_space c ≡ false
unfolding is_number_byte is_space
number_not_space c h = ground arith

word_start_facts :
    (c : ℕ)
    → is_word_start c ≡ true
    → (is_space c ≡ false) × (is_number_byte c ≡ false) × (is_word_byte c ≡ true)
unfolding is_number_byte is_space is_word_start is_word_byte
word_start_facts c h = ground arith

operator_facts :
    (c : ℕ)
    → is_operator_byte c ≡ true
    → (is_space c ≡ false) × (is_number_byte c ≡ false) × (is_word_start c ≡ false)
unfolding is_number_byte is_space is_word_start is_operator_byte
operator_facts c h = ground arith

space_not_number : is_number_byte b' ' ≡ false
unfolding is_number_byte
space_not_number = refl

space_not_word : is_word_byte b' ' ≡ false
unfolding is_word_byte
space_not_word = refl

-- One round reads a whole token and stops at the space behind it.
lex-value :
    (t : TokenType) (v rest : Bytes)
    → IsValue t v
    → (c : ℕ) × (s : Bytes) × (v ≡ c ∷ s)
      × (lex c (s ++ b' ' ∷ rest) ≡ lexed (token t v) (b' ' ∷ rest))
unfolding lex
lex-value number [] rest h = absurd h
lex-value number (c ∷ s) rest (h, p) = (
  c,
  s,
  refl,
  rw (number_not_space c h, h)
      (rw (
        take_while-Passes is_number_byte (c ∷ s) rest space_not_number (h, p),
        drop_while-Passes is_number_byte (c ∷ s) rest space_not_number (h, p),
      )),
)
lex-value variable [] rest h = absurd h
lex-value variable (c ∷ s) rest (h, p) =
    let (sp, nu, wo) = word_start_facts c h in
    (
      c,
      s,
      refl,
      rw (sp, nu, h)
          (rw (
            take_while-Passes is_word_byte (c ∷ s) rest space_not_word (wo, p),
            drop_while-Passes is_word_byte (c ∷ s) rest space_not_word (wo, p),
          )),
    )
lex-value operator v rest (c, e, h) =
    let (sp, nu, wo) = operator_facts c h in (c, [], e, rw (sp, nu, wo, h, e))
lex-value lparen v rest e =
    (b'(', [], e, rw e (unfold is_space is_number_byte is_word_start is_operator_byte in refl))
lex-value rparen v rest e =
    (b')', [], e, rw e (unfold is_space is_number_byte is_word_start is_operator_byte in refl))

lex-space : (s : Bytes) → lex b' ' s ≡ skipped s
unfolding lex is_space
lex-space s = refl

IsValue-length : (t : TokenType) (v : Bytes) → IsValue t v → 0 < length v
IsValue-length number (c ∷ s) h = omega arith
IsValue-length number [] h = absurd h
IsValue-length variable (c ∷ s) h = omega arith
IsValue-length variable [] h = absurd h
IsValue-length operator v (c, e, h) = omega (arith, ap length e)
IsValue-length lparen v e = omega (arith, ap length e)
IsValue-length rparen v e = omega (arith, ap length e)

tokenize_loop-value :
    (t : TokenType) (v rest : Bytes) (done : List Token) (fuel : ℕ)
    → IsValue t v
    → tokenize_loop (suc (suc fuel)) (v ++ b' ' ∷ rest) done
      ≡ tokenize_loop fuel rest (done ++ token t v ∷ [])
unfolding tokenize_loop
tokenize_loop-value t v rest done fuel h =
    let (c, s, e, r) = lex-value t v rest h in
    rw e (rw (r, tokenize_loop) (rw (lex-space, tokenize_loop) (rw e)))

tokenize_loop-render :
    (ts done : List Token) (fuel : ℕ)
    → All IsToken ts
    → length (render ts) < fuel
    → tokenize_loop fuel (render ts) done ≡ ok (done ++ ts)
tokenize_loop-render ts done zero h l = elim l [ ]
tokenize_loop-render [] done (suc fuel) h l = unfold tokenize_loop in rw append-nil
tokenize_loop-render (t ∷ ts) done (suc zero) h l =
    absurd (omega (arith, length-append t.value (b' ' ∷ render ts)))
tokenize_loop-render (t ∷ ts) done (suc (suc fuel)) h l =
    tokenize_loop-value t.type t.value (render ts) done fuel h.0
    ∙ tokenize_loop-render ts (done ++ t ∷ []) fuel h.1
        (omega (arith, length-append t.value (b' ' ∷ render ts), IsValue-length t.type t.value h.0))
    ∙ rw append_assoc

-- Tokens that are written out with a space behind each are read back as they were.
pub tokenize-render : (ts : List Token) → All IsToken ts → tokenize (render ts) ≡ ok ts
unfolding tokenize
tokenize-render ts h = tokenize_loop-render ts [] _ h (omega arith)
