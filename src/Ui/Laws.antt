-- ===== src/Ui/Laws.antt =====
-- What the buffers of internal/ui hold after a sequence of appends.
use terraform_provider_enos.Prelude.{◌≡◌, refl, ap, sym, ◌∙◌, List, [], ◌∷◌, ◌++◌, Bytes, map}
use terraform_provider_enos.Ui.{Buffered, new_buffered, append, append_stdout, append_stderr}

infixl 20 ◌on_line◌
-- Two texts with a newline between them, where neither is empty.
abbrev pub ◌on_line◌ : Bytes → Bytes → Bytes
[] on_line t = t
(c ∷ s) on_line [] = c ∷ s
(c ∷ s) on_line (d ∷ t) = (c ∷ s) ++ b'\n' ∷ d ∷ t

-- The texts that are not empty, with a newline between any two.
abbrev pub lines_of : List Bytes → Bytes
lines_of [] = []
lines_of (s ∷ texts) = s on_line lines_of texts

abbrev pub append_all : List (Bytes × Bytes) → Buffered → Buffered
append_all [] b = b
append_all ((stdout, stderr) ∷ outputs) b = append_all outputs (append stdout stderr b)

++-assoc : (xs ys zs : Bytes) → (xs ++ ys) ++ zs ≡ xs ++ (ys ++ zs)
++-assoc [] ys zs = refl
++-assoc (x ∷ xs) ys zs = ap (◌∷◌ x) (++-assoc xs ys zs)

on_line-nil : (s : Bytes) → s on_line [] ≡ s
on_line-nil [] = refl
on_line-nil (c ∷ s) = refl

on_line_assoc : (s t u : Bytes) → (s on_line t) on_line u ≡ s on_line (t on_line u)
on_line_assoc [] t u = refl
on_line_assoc (c ∷ s) [] u = refl
on_line_assoc (c ∷ s) (d ∷ t) [] = refl
on_line_assoc (c ∷ s) (d ∷ t) (e ∷ u) = ap (◌∷◌ c) (++-assoc s (b'\n' ∷ d ∷ t) (b'\n' ∷ e ∷ u))

append_stdout-on_line : (s : Bytes) (b : Buffered) → (append_stdout s b).stdout ≡ b.stdout on_line s
append_stdout-on_line s b = go s b.stdout b refl
  where
    go :
        (s has : Bytes) (b : Buffered) → b.stdout ≡ has → (append_stdout s b).stdout ≡ has on_line s
    go [] has b h = h ∙ sym (on_line-nil has)
    go (c ∷ s) [] b h = rw h refl
    go (c ∷ s) (d ∷ has) b h = rw h refl

append_stderr-on_line : (s : Bytes) (b : Buffered) → (append_stderr s b).stderr ≡ b.stderr on_line s
append_stderr-on_line s b = go s b.stderr b refl
  where
    go :
        (s has : Bytes) (b : Buffered) → b.stderr ≡ has → (append_stderr s b).stderr ≡ has on_line s
    go [] has b h = h ∙ sym (on_line-nil has)
    go (c ∷ s) [] b h = rw h refl
    go (c ∷ s) (d ∷ has) b h = rw h refl

append_stdout-stderr : (s : Bytes) (b : Buffered) → (append_stdout s b).stderr ≡ b.stderr
append_stdout-stderr [] b = refl
append_stdout-stderr (c ∷ s) b = refl

append_stderr-stdout : (s : Bytes) (b : Buffered) → (append_stderr s b).stdout ≡ b.stdout
append_stderr-stdout [] b = refl
append_stderr-stdout (c ∷ s) b = refl

append_all-from :
    (outputs : List (Bytes × Bytes)) (b : Buffered)
    → ((append_all outputs b).stdout ≡ b.stdout on_line lines_of (map (λ o. o.0) outputs))
      × ((append_all outputs b).stderr ≡ b.stderr on_line lines_of (map (λ o. o.1) outputs))
unfolding append
append_all-from [] b = (sym (on_line-nil b.stdout), sym (on_line-nil b.stderr))
append_all-from ((out, err) ∷ outputs) b =
    let (ho, he) = append_all-from outputs (append out err b) in
    let o = append_stderr-stdout err (append_stdout out b) ∙ append_stdout-on_line out b in
    let e =
      append_stderr-on_line err (append_stdout out b)
      ∙ ap (λ x. x on_line err) (append_stdout-stderr out b) in
    (
      ho ∙ (ap (λ x. x on_line lines_of (map (λ o. o.0) outputs)) o ∙ on_line_assoc b.stdout out _),
      he ∙ (ap (λ x. x on_line lines_of (map (λ o. o.1) outputs)) e ∙ on_line_assoc b.stderr err _),
    )

-- After outputs are appended to new buffers, each of the two texts is what the outputs of its kind
-- say, in their order, the empty ones left out, with one newline between any two.
pub append_all-lines_of :
    (outputs : List (Bytes × Bytes))
    → ((append_all outputs new_buffered).stdout ≡ lines_of (map (λ o. o.0) outputs))
      × ((append_all outputs new_buffered).stderr ≡ lines_of (map (λ o. o.1) outputs))
append_all-lines_of outputs = append_all-from outputs new_buffered
