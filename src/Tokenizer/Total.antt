-- ===== src/Tokenizer/Total.antt =====
-- The tokenizer ends on every text, and loses nothing but white space.
use mathlib.Core.List.{append-nil, append_assoc}
use redborder_monitor.Base.{
  ℕ, zero, suc, ◌≤◌, ◌<◌, ◌≡◌, refl, sym, ap, ◌∙◌, inl, inr, Bool, true, false, ◌||◌, List, [], ◌∷◌,
  ◌++◌, All, All-append, arith, if◌then◌else◌, ◌==◌, length, Bool-cases,
}
use redborder_monitor.Base.Text.{Bytes, codes, is_space}
use redborder_monitor.Base.Result.{Result, ok, err}
use redborder_monitor.Tokenizer.{
  TokenType, number, variable, operator, lparen, rparen, Token, token, EvalError, unexpected_char,
  Lexed, skipped, lexed, refused, is_number_byte, is_word_start, is_word_byte, is_operator_byte,
  take_while, drop_while, lex, tokenize_loop, tokenize,
}

-- The bytes that a formula may hold.
pub is_legal : ℕ → Bool
is_legal c =
    is_space c || is_word_byte c || c == b'.' || is_operator_byte c || c == b'(' || c == b')'

abbrev pub IsLegal : ℕ → Type 0
IsLegal c = is_legal c ≡ true

abbrev pub without_spaces : Bytes → Bytes
without_spaces [] = []
without_spaces (c ∷ s) = if is_space c then without_spaces s else c ∷ without_spaces s

-- the texts of the tokens, in order
abbrev pub text : List Token → Bytes
text [] = []
text (t ∷ ts) = t.value ++ text ts

-- What one round leaves of the text `c ∷ s`.
abbrev Lexes : ℕ → Bytes → Lexed → Type 0
Lexes c s (skipped rest) = (is_space c ≡ true) × (rest ≡ s)
Lexes c s (lexed tok rest) =
    (c ∷ s ≡ tok.value ++ rest)
    × All (λ b. is_space b ≡ false) tok.value
    × All IsLegal tok.value
    × (length rest ≤ length s)
Lexes c s (refused b) = (b ≡ c) × (is_legal c ≡ false)

take-drop : (p : ℕ → Bool) (s : Bytes) → s ≡ take_while p s ++ drop_while p s
unfolding take_while drop_while
take-drop p [] = refl
take-drop p (c ∷ s) = elim (Bool-cases (p c)) [
  | inl h ↦ rw h (ap (◌∷◌ c) (take-drop p s))
  | inr h ↦ rw h
]

length-drop_while : (p : ℕ → Bool) (s : Bytes) → length (drop_while p s) ≤ length s
unfolding drop_while
length-drop_while p [] = omega arith
length-drop_while p (c ∷ s) = ground (arith, length-drop_while p s)

All-take_while : (p : ℕ → Bool) (s : Bytes) → All (λ c. p c ≡ true) (take_while p s)
unfolding take_while
All-take_while p [] = tt
All-take_while p (c ∷ s) = elim (Bool-cases (p c)) [
  | inl h ↦ rw h (h, All-take_while p s)
  | inr h ↦ rw h tt
]

All-map {ℓ} : {P Q : ℕ → Type ℓ} → ((c : ℕ) → P c → Q c) → (s : Bytes) → All P s → All Q s
All-map f [] h = tt
All-map f (c ∷ s) h = (f c h.0, All-map f s h.1)

number_facts : (c : ℕ) → is_number_byte c ≡ true → (is_space c ≡ false) × (is_legal c ≡ true)
unfolding is_number_byte is_word_byte is_operator_byte is_space is_legal
number_facts c h = ground arith

word_facts : (c : ℕ) → is_word_byte c ≡ true → (is_space c ≡ false) × (is_legal c ≡ true)
unfolding is_word_byte is_operator_byte is_space is_legal
word_facts c h = ground arith

word_start_is_word : (c : ℕ) → is_word_start c ≡ true → is_word_byte c ≡ true
unfolding is_word_start is_word_byte
word_start_is_word c h = ground arith

symbol_facts :
    (c : ℕ)
    → (is_operator_byte c || c == b'(' || c == b')') ≡ true
    → (is_space c ≡ false) × (is_legal c ≡ true)
unfolding is_space is_operator_byte is_legal
symbol_facts c h = ground arith

rest_illegal :
    (c : ℕ)
    → is_space c ≡ false
    → is_number_byte c ≡ false
    → is_word_start c ≡ false
    → is_operator_byte c ≡ false
    → (c == b'(') ≡ false
    → (c == b')') ≡ false
    → is_legal c ≡ false
unfolding is_space is_number_byte is_word_start is_word_byte is_operator_byte is_legal
rest_illegal c a b d e f g = ground arith

-- the round that passes over a run of bytes of one kind
run-Lexes :
    (t : TokenType) (p : ℕ → Bool) (c : ℕ) (s : Bytes)
    → p c ≡ true
    → ((b : ℕ) → p b ≡ true → (is_space b ≡ false) × (is_legal b ≡ true))
    → Lexes c s (lexed (token t (take_while p (c ∷ s))) (drop_while p (c ∷ s)))
run-Lexes t p c s h facts = (
  take-drop p (c ∷ s),
  All-map (λ b k. (facts b k).0) _ (All-take_while p (c ∷ s)),
  All-map (λ b k. (facts b k).1) _ (All-take_while p (c ∷ s)),
  unfold drop_while in rw h (length-drop_while p s),
)

-- the last tests of a round
symbol-Lexes :
    (c : ℕ) (s : Bytes)
    → is_space c ≡ false
    → is_number_byte c ≡ false
    → is_word_start c ≡ false
    → Lexes c s (
        if is_operator_byte c
        then lexed (token operator (c ∷ [])) s
        else if c == b'('
        then lexed (token lparen (codes "(")) s
        else if c == b')'
        then lexed (token rparen (codes ")")) s
        else refused c)
symbol-Lexes c s a b d = ground (arith, symbol_facts c, rest_illegal c a b d)

lex-Lexes : (c : ℕ) (s : Bytes) → Lexes c s (lex c s)
unfolding lex
lex-Lexes c s = elim (Bool-cases (is_space c)) [
  | inl sp ↦ rw sp (sp, refl)
  | inr sp ↦ rw sp (elim (Bool-cases (is_number_byte c)) [
    | inl nu ↦ rw nu (run-Lexes number is_number_byte c s nu number_facts)
    | inr nu ↦ rw nu (elim (Bool-cases (is_word_start c)) [
      | inl wo ↦ rw wo (run-Lexes variable is_word_byte c s (word_start_is_word c wo) word_facts)
      | inr wo ↦ rw wo (symbol-Lexes c s sp nu wo)
    ])
  ])
]

-- What the tokenizer may return for the text `s`.
abbrev pub Tokenizes : Bytes → Result EvalError (List Token) → Type 0
Tokenizes s (ok tokens) = (text tokens ≡ without_spaces s) × All IsLegal s
Tokenizes s (err e) =
    (before : Bytes) × (c : ℕ) × (behind : Bytes) × (s ≡ before ++ c ∷ behind)
    × All IsLegal before
    × (is_legal c ≡ false)
    × (e ≡ unexpected_char c)

text-concat : (ts : List Token) (t : Token) → text (ts ++ t ∷ []) ≡ text ts ++ t.value
text-concat [] t = append-nil t.value
text-concat (x ∷ ts) t = rw (text-concat ts t, append_assoc)

without_spaces-append :
    (s r : Bytes) → without_spaces (s ++ r) ≡ without_spaces s ++ without_spaces r
without_spaces-append [] r = refl
without_spaces-append (c ∷ s) r = elim (Bool-cases (is_space c)) [
  | inl h ↦ rw h (without_spaces-append s r)
  | inr h ↦ rw h (ap (◌∷◌ c) (without_spaces-append s r))
]

without_spaces-none : (s : Bytes) → All (λ b. is_space b ≡ false) s → without_spaces s ≡ s
without_spaces-none [] h = refl
without_spaces-none (c ∷ s) h = rw h.0 (ap (◌∷◌ c) (without_spaces-none s h.1))

IsLegal-space : (c : ℕ) → is_space c ≡ true → IsLegal c
unfolding is_legal
IsLegal-space c h = rw h

-- The text `pre` is read and has given `tokens`; `s` is still to read.
record Progress (whole pre s : Bytes) (tokens : List Token) : Type 0 where
  splits : whole ≡ pre ++ s
  legal : All IsLegal pre
  kept : text tokens ≡ without_spaces pre

advance_space :
    {whole pre s : Bytes} {tokens : List Token} (c : ℕ)
    → Progress whole pre (c ∷ s) tokens
    → is_space c ≡ true
    → Progress whole (pre ++ c ∷ []) s tokens
advance_space {pre = pre} {s = s} c p h = record {
  splits = p.splits ∙ sym (append_assoc pre (c ∷ []) s);
  legal = All-append IsLegal pre (c ∷ []) p.legal (IsLegal-space c h, tt);
  kept = p.kept ∙ sym (without_spaces-append pre (c ∷ []) ∙ rw h (append-nil _));
}

advance_token :
    {whole pre s : Bytes} {tokens : List Token} (t : Token) (rest : Bytes)
    → Progress whole pre s tokens
    → s ≡ t.value ++ rest
    → All (λ b. is_space b ≡ false) t.value
    → All IsLegal t.value
    → Progress whole (pre ++ t.value) rest (tokens ++ t ∷ [])
advance_token {pre = pre} {tokens = tokens} t rest p e spaceless legal = record {
  splits = p.splits ∙ ap (λ x. pre ++ x) e ∙ sym (append_assoc pre t.value rest);
  legal = All-append IsLegal pre t.value p.legal legal;
  kept =
      text-concat tokens t
      ∙ ap (λ x. x ++ t.value) p.kept
      ∙ sym (without_spaces-append pre t.value ∙ rw (without_spaces-none t.value spaceless));
}

-- one round, over what the later rounds do
round_Tokenizes :
    (whole pre : Bytes) (c : ℕ) (s : Bytes) (tokens : List Token) (fuel : ℕ)
    → ((pre s : Bytes) (tokens : List Token)
        → Progress whole pre s tokens
        → length s < fuel
        → Tokenizes whole (tokenize_loop fuel s tokens))
    → Progress whole pre (c ∷ s) tokens
    → length s < fuel
    → (r : Lexed) → Lexes c s r
    → Tokenizes whole (elim r [
      | skipped rest ↦ tokenize_loop fuel rest tokens
      | lexed tok rest ↦ tokenize_loop fuel rest (tokens ++ tok ∷ [])
      | refused ch ↦ err (unexpected_char ch)
    ])
round_Tokenizes whole pre c s tokens fuel later p l (skipped rest) (h, e) =
    rw e (later (pre ++ c ∷ []) s tokens (advance_space c p h) l)
round_Tokenizes whole pre c s tokens fuel later p l (lexed tok rest) (e, h, k, m) =
    later (pre ++ tok.value) rest (tokens ++ tok ∷ []) (advance_token tok rest p e h k)
      (omega arith)
round_Tokenizes whole pre c s tokens fuel later p l (refused ch) (e, h) =
    (pre, c, s, p.splits, p.legal, h, ap unexpected_char e)

tokenize_loop-Tokenizes :
    (fuel : ℕ) (whole pre s : Bytes) (tokens : List Token)
    → Progress whole pre s tokens
    → length s < fuel
    → Tokenizes whole (tokenize_loop fuel s tokens)
unfolding tokenize_loop
tokenize_loop-Tokenizes zero whole pre s tokens p l = elim l [ ]
tokenize_loop-Tokenizes (suc fuel) whole pre [] tokens p l =
    let e : whole ≡ pre = p.splits ∙ append-nil pre in rw e (p.kept, p.legal)
tokenize_loop-Tokenizes (suc fuel) whole pre (c ∷ s) tokens p l =
    round_Tokenizes whole pre c s tokens fuel (tokenize_loop-Tokenizes fuel whole) p (omega arith)
      (lex c s) (lex-Lexes c s)

-- On every text the tokenizer's loop ends. Where it succeeds, the texts of the tokens are the text
-- without its white space and every byte was legal; where it fails, it reports the first byte that
-- is not legal, and nothing before that byte is illegal.
pub tokenize_total : (expr : Bytes) → Tokenizes expr (tokenize expr)
unfolding tokenize
tokenize_total expr =
    tokenize_loop-Tokenizes _ expr [] expr [] (record { splits = refl; legal = tt; kept = refl })
      (omega arith)
