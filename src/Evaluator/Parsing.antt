-- ===== src/Evaluator/Parsing.antt =====
-- The shunting yard turns every phrase of the grammar into the postfix form of what it stands for.
use mathlib.Core.List.{append-nil, append_assoc}
use redborder_monitor.Base.{
  ℕ, ◌≤◌, ◌<◌, ◌≡◌, refl, sym, ap, ◌∙◌, ◌⊎◌, inl, inr, true, false, some, List, [], ◌∷◌, ◌++◌, All,
  All-append, arith,
}
use redborder_monitor.Base.Text.{Bytes, codes}
use redborder_monitor.Base.Result.{ok}
use redborder_monitor.Tokenizer.{number, variable, operator, lparen, rparen, Token, token}
use redborder_monitor.Evaluator.{
  get_precedence, yields_to, pop_operators, pop_to_paren, yard, yard_step, yard_loop, flush,
  shunting_yard,
}
use redborder_monitor.Evaluator.Grammar.{
  BinOp, plus, minus, times, over, Expr, num, var, negated, bin, Level, sum, product, signed, atom,
  symbol, level, above, Derives, a_number, a_variable, group, minus_sign, binary, product_sum,
  signed_product, atom_signed, postfix,
}

abbrev rank : Level → ℕ
rank sum = 1
rank product = 2
rank _ = 3

-- An operator that a phrase of level `l` may leave on the stack.
abbrev Pending : Level → Token → Type 0
Pending l t = (t.type ≡ operator) × (rank l ≤ get_precedence t.value)

-- A stack whose top no operator of level `l` takes off.
abbrev Blocks : Level → List Token → Type 0
Blocks _ [] = Unit
Blocks sum (top ∷ s) = (top.type ≡ lparen) ⊎ (get_precedence top.value < 1)
Blocks product (top ∷ s) = (top.type ≡ lparen) ⊎ (get_precedence top.value < 2)
Blocks signed (top ∷ s) = Unit
Blocks atom (top ∷ s) = Unit

yields_to-Pending :
    (o : BinOp) (x : Token) → Pending (level o) x → yields_to (symbol o) x.value ≡ true
unfolding yields_to
yields_to-Pending plus x h = ground arith
yields_to-Pending minus x h = ground arith
yields_to-Pending times x h = ground arith
yields_to-Pending over x h = ground arith

pop_operators-blocked :
    (o : BinOp) (q s : List Token) → Blocks (level o) s → pop_operators (symbol o) q s ≡ (q, s)
unfolding pop_operators
pop_operators-blocked o q [] b = refl
pop_operators-blocked plus q (x ∷ s) b = ground arith
pop_operators-blocked minus q (x ∷ s) b = ground arith
pop_operators-blocked times q (x ∷ s) b = ground arith
pop_operators-blocked over q (x ∷ s) b = ground arith

pop_operators-Pending :
    (o : BinOp) (q t s : List Token)
    → All (Pending (level o)) t
    → Blocks (level o) s
    → pop_operators (symbol o) q (t ++ s) ≡ (q ++ t, s)
pop_operators-Pending o q [] s h b = rw append-nil (pop_operators-blocked o q s b)
pop_operators-Pending o q (x ∷ t) s h b =
    let popped : pop_operators (symbol o) q (x ∷ (t ++ s))
        ≡ pop_operators (symbol o) (q ++ x ∷ []) (t ++ s) =
      unfold pop_operators in rw (h.0.0, yields_to-Pending o x h.0) in
    popped ∙ pop_operators-Pending o (q ++ x ∷ []) t s h.1 b ∙ rw append_assoc

-- Nothing on a stack yields to the unary minus.
pop_operators-unary : (q s : List Token) → pop_operators (codes "u-") q s ≡ (q, s)
unfolding pop_operators
pop_operators-unary q [] = refl
pop_operators-unary q (x ∷ s) = ground arith

pop_to_paren-Pending :
    (l : Level) (q t s : List Token) (v : Bytes)
    → All (Pending l) t
    → pop_to_paren q (t ++ token lparen v ∷ s) ≡ some (q ++ t, s)
unfolding pop_to_paren
pop_to_paren-Pending l q [] s v h = rw append-nil
pop_to_paren-Pending l q (x ∷ t) s v h =
    simp h.0.0 (pop_to_paren-Pending l (q ++ x ∷ []) t s v h.1 ∙ rw append_assoc)

flush-Pending : (l : Level) (q t : List Token) → All (Pending l) t → flush q t ≡ ok (q ++ t)
unfolding flush
flush-Pending l q [] h = rw append-nil
flush-Pending l q (x ∷ t) h = simp h.0.0 (flush-Pending l (q ++ x ∷ []) t h.1 ∙ rw append_assoc)

-- Read from a start, the phrase `w` leaves the operators `t` on the stack and has sent the rest of
-- the postfix form of `e` to the queue, whatever tokens follow.
record Reads (l : Level) (e : Expr) (w : List Token) (q s : List Token) : Type 0 where
  sent : List Token
  left : List Token
  reads :
      (rest : List Token)
      → yard_loop (w ++ rest) (yard q s true) ≡ yard_loop rest (yard sent (left ++ s) false)
  whole : sent ++ left ≡ q ++ postfix e
  pending : All (Pending l) left

weaken : (l k : Level) (t : List Token) → rank k ≤ rank l → All (Pending l) t → All (Pending k) t
weaken l k [] h a = tt
weaken l k (x ∷ t) h a = ((a.0.0, omega arith), weaken l k t h a.1)

operator-Pending : (o : BinOp) → Pending (level o) (token operator (symbol o))
unfolding get_precedence
operator-Pending plus = ground arith
operator-Pending minus = ground arith
operator-Pending times = ground arith
operator-Pending over = ground arith

Blocks-above : (o : BinOp) (s : List Token) → Blocks (above o) (token operator (symbol o) ∷ s)
unfolding get_precedence
Blocks-above plus s = ground arith
Blocks-above minus s = ground arith
Blocks-above times s = tt
Blocks-above over s = tt

binary_step :
    (o : BinOp) (q t s : List Token)
    → All (Pending (level o)) t
    → Blocks (level o) s
    → yard_step operator (token operator (symbol o)) (yard q (t ++ s) false)
      ≡ ok (yard (q ++ t) (token operator (symbol o) ∷ s) true)
unfolding yard_step
binary_step plus q t s h b = rw (pop_operators-Pending plus q t s h b)
binary_step minus q t s h b = rw (pop_operators-Pending minus q t s h b)
binary_step times q t s h b = rw (pop_operators-Pending times q t s h b)
binary_step over q t s h b = rw (pop_operators-Pending over q t s h b)

read_group :
    {e : Expr} {w : List Token} (q s : List Token)
    → Reads sum e w q (token lparen (codes "(") ∷ s)
    → Reads atom e (token lparen (codes "(") ∷ (w ++ token rparen (codes ")") ∷ [])) q s
unfolding yard_loop yard_step
read_group {e} {w} q s r = record {
  sent = q ++ postfix e;
  left = [];
  reads = λ rest. rw append_assoc (
      r.reads (token rparen (codes ")") ∷ rest)
      ∙ rw (pop_to_paren-Pending sum r.sent r.left s (codes "(") r.pending, r.whole));
  whole = append-nil _;
  pending = tt;
}

read_minus :
    {e : Expr} {w : List Token} (q s : List Token)
    → Reads signed e w q (token operator (codes "u-") ∷ s)
    → Reads signed (negated e) (token operator (codes "-") ∷ w) q s
unfolding yard_loop yard_step get_precedence
read_minus {e} {w} q s r = record {
  sent = r.sent;
  left = r.left ++ token operator (codes "u-") ∷ [];
  reads = λ rest. rw pop_operators-unary (r.reads rest ∙ rw append_assoc);
  whole =
      sym (append_assoc r.sent r.left _)
      ∙ ap (λ x. x ++ token operator (codes "u-") ∷ []) r.whole
      ∙ append_assoc q (postfix e) _;
  pending = All-append (Pending signed) r.left _ r.pending ((refl, omega arith), tt);
}

rank-above : (o : BinOp) → rank (level o) ≤ rank (above o)
rank-above plus = omega arith
rank-above minus = omega arith
rank-above times = omega arith
rank-above over = omega arith

read_binary :
    (o : BinOp) {a b : Expr} {v w : List Token} (q s : List Token)
    → Blocks (level o) s
    → (left_read : Reads (level o) a v q s)
    → Reads (above o) b w (q ++ postfix a) (token operator (symbol o) ∷ s)
    → Reads (level o) (bin o a b) (v ++ token operator (symbol o) ∷ w) q s
unfolding yard_loop
read_binary o {a} {b} {v} {w} q s blocked l r = record {
  sent = r.sent;
  left = r.left ++ token operator (symbol o) ∷ [];
  reads = λ rest. rw append_assoc (
      l.reads (token operator (symbol o) ∷ (w ++ rest))
      ∙ rw (binary_step o l.sent l.left s l.pending blocked, l.whole)
          (r.reads rest ∙ rw append_assoc));
  whole =
      sym (append_assoc r.sent r.left _)
      ∙ ap (λ x. x ++ token operator (symbol o) ∷ []) r.whole
      ∙ simp append_assoc;
  pending =
      All-append (Pending (level o)) r.left _
        (weaken (above o) (level o) r.left (rank-above o) r.pending) (operator-Pending o, tt);
}

read_single :
    (e : Expr) (tok : Token) (q s : List Token)
    → (tok.type ≡ number) ⊎ (tok.type ≡ variable)
    → postfix e ≡ tok ∷ []
    → Reads atom e (tok ∷ []) q s
unfolding yard_loop yard_step
read_single e tok q s h p = record {
  sent = q ++ tok ∷ [];
  left = [];
  reads = λ rest. ground arith;
  whole = append-nil _ ∙ rw p;
  pending = tt;
}

weaken-Reads :
    (l k : Level) {e : Expr} {w : List Token} (q s : List Token)
    → rank k ≤ rank l
    → Reads l e w q s
    → Reads k e w q s
weaken-Reads l k q s h r = record {
  sent = r.sent;
  left = r.left;
  reads = r.reads;
  whole = r.whole;
  pending = weaken l k r.left h r.pending;
}

Blocks-product : (s : List Token) → Blocks sum s → Blocks product s
Blocks-product [] b = tt
Blocks-product (x ∷ s) b = ground arith

Blocks-signed : (s : List Token) → Blocks signed s
Blocks-signed [] = tt
Blocks-signed (x ∷ s) = tt

Blocks-atom : (s : List Token) → Blocks atom s
Blocks-atom [] = tt
Blocks-atom (x ∷ s) = tt

read :
    {l : Level} {e : Expr} {w : List Token} (q s : List Token)
    → Derives l e w
    → Blocks l s
    → Reads l e w q s
read q s (a_number v) b = read_single (num v) _ q s (inl refl) refl
read q s (a_variable v) b = read_single (var v) _ q s (inr refl) refl
read q s (group d) b = read_group q s (read q _ d (inl refl))
read q s (minus_sign d) b = read_minus q s (read q _ d tt)
read q s (binary o {a} dl dr) b =
    read_binary o q s b (read q s dl b) (read (q ++ postfix a) _ dr (Blocks-above o s))
read q s (product_sum d) b =
    weaken-Reads product sum q s (omega arith) (read q s d (Blocks-product s b))
read q s (signed_product d) b =
    weaken-Reads signed product q s (omega arith) (read q s d (Blocks-signed s))
read q s (atom_signed d) b = weaken-Reads atom signed q s (omega arith) (read q s d (Blocks-atom s))

-- The shunting yard turns the tokens of every infix formula into its postfix form: products bind
-- tighter than sums, binary operators group to the left, and a sign binds tightest.
pub shunting_yard-postfix :
    {e : Expr} {w : List Token} → Derives sum e w → shunting_yard w ≡ ok (postfix e)
unfolding shunting_yard
shunting_yard-postfix {e} {w} d =
    let r = read {w = w} [] [] d tt in
    ap (λ x. yard_loop x (yard [] [] true)) (sym (append-nil w))
    ∙ r.reads []
    ∙ rw append-nil (flush-Pending sum r.sent r.left r.pending ∙ ap ok r.whole)
