-- ===== src/Comments/Idempotent.antt =====
-- A text without comments is left as it is.
use redborder_monitor.Base.{ℕ, ◌≡◌, refl, sym, ap, ◌∙◌, [], ◌∷◌, ◌++◌, arith}
use redborder_monitor.Base.Text.{Bytes}
use redborder_monitor.Comments.{strip_comments}
use redborder_monitor.Comments.Scanner.{
  Mode, plain, in_string, in_escape, slash, block, star, line, next, out, scan, strip_comments-scan,
}

-- Where a scanner of the output stands when that of the input stands here.
abbrev image : Mode → Mode
image in_string = in_string
image in_escape = in_escape
image _ = plain

-- what the second scanner does with the output for one byte
Steps : Mode → ℕ → Type 0
Steps m c = (t : Bytes) → scan (image m) (out m c ++ t) ≡ out m c ++ scan (image (next m c)) t

Steps-plain : (c : ℕ) → Steps plain c
unfolding Steps scan
Steps-plain c t = ground arith

Steps-in_string : (c : ℕ) → Steps in_string c
unfolding Steps scan
Steps-in_string c t = ground arith

Steps-slash : (c : ℕ) → Steps slash c
unfolding Steps scan
Steps-slash c t = ground arith

Steps-all : (m : Mode) (c : ℕ) → Steps m c
unfolding Steps scan
Steps-all plain c t = Steps-plain c t
Steps-all in_string c t = Steps-in_string c t
Steps-all in_escape c t = refl
Steps-all slash c t = Steps-slash c t
Steps-all block c t = ground arith
Steps-all star c t = ground arith
Steps-all line c t = ground arith

scan_again : (m : Mode) (s : Bytes) → scan (image m) (scan m s) ≡ scan m s
unfolding scan Steps
scan_again plain [] = refl
scan_again in_string [] = refl
scan_again in_escape [] = refl
scan_again slash [] = refl
scan_again block [] = refl
scan_again star [] = refl
scan_again line [] = refl
scan_again m (c ∷ s) =
    Steps-all m c (scan (next m c) s) ∙ ap (λ l. out m c ++ l) (scan_again (next m c) s)

-- A second run changes nothing: what is left has no comment outside of its strings.
pub strip_comments_again : (s : Bytes) → strip_comments (strip_comments s) ≡ strip_comments s
strip_comments_again s =
    strip_comments-scan (strip_comments s)
    ∙ ap (scan plain) (strip_comments-scan s)
    ∙ scan_again plain s
    ∙ sym (strip_comments-scan s)
