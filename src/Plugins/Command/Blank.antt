-- ===== src/Plugins/Command/Blank.antt =====
-- internal/monitor/system.go: white space in front of a command's output.
use redborder_monitor.Base.{
  ℕ, ◌≡◌, refl, sym, ap, ◌∙◌, true, List, [], ◌∷◌, Bool-cases, inl, inr, ◌==◌, ==_iff,
}
use redborder_monitor.Base.Text.{Bytes, codes, trim_space, trim_left, is_ascii_space}
use redborder_monitor.Base.Split.{split}
use redborder_monitor.Base.Join.{split-Parts, split-separator, split-other}
use mathlib.Core.Path.{subst}
use redborder_monitor.Plugins.Command.{first_line, command_output}

trim_space-cons : (c : ℕ) (s : Bytes) → is_ascii_space c ≡ true → trim_space (c ∷ s) ≡ trim_space s
unfolding trim_space trim_left
trim_space-cons c s h = rw h refl

first_line-nil : (ls : List Bytes) → first_line ([] ∷ ls) ≡ first_line ls
unfolding first_line trim_space trim_left
first_line-nil ls = refl

first_line-trim :
    (p q : Bytes) (ls : List Bytes)
    → trim_space p ≡ trim_space q
    → first_line (p ∷ ls) ≡ first_line (q ∷ ls)
unfolding first_line
first_line-trim p q ls h = rw h refl

-- White space in front of the output of a command, empty lines included, does not change the value
-- that is taken from it.
pub command_output-blank :
    (c : ℕ) (s : Bytes) → is_ascii_space c ≡ true → command_output (c ∷ s) ≡ command_output s
unfolding command_output
command_output-blank c s h = elim (Bool-cases (b'\n' == c)) [
  | inl e ↦
      subst (λ d. command_output (d ∷ s) ≡ command_output s) ((==_iff b'\n' c).0 e)
        (ap first_line (split-separator b'\n' s) ∙ first_line-nil (split (codes "\n") s))
  | inr e ↦
      let (p, ps, (f, j, k)) = split-Parts b'\n' s in
      ap first_line (split-other b'\n' c s p ps e f)
      ∙ first_line-trim (c ∷ p) p ps (trim_space-cons c p h)
      ∙ ap first_line (sym f)
]
