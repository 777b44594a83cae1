-- ===== src/Fs/Directory/Names.antt =====
-- Paths of the directory model: prefixes one after the other, and cutting at the first slash.
use neofs_mount.Prelude.{
  ◌≡◌, refl, Text, Bool, false, not, ◌&&◌, Option, none, some, [], ◌∷◌, ◌++◌, text_eq, strip, arith,
}
use neofs_mount.Neofs.Listing.{slash}
use neofs_mount.Fs.Directory.{starts_with, contains_slash, cut}

-- A test of what follows a prefix.
abbrev pub on_rest : (Text → Bool) → Option Text → Bool
on_rest f none = false
on_rest f (some rest) = f rest

pub starts_with-append :
    (p q s : Text) → starts_with (p ++ q) s ≡ on_rest (starts_with q) (strip p s)
unfolding strip
starts_with-append [] q s = refl
starts_with-append (c ∷ p) q [] = refl
starts_with-append (c ∷ p) q (d ∷ s) = ground (arith, starts_with-append p q s)

pub text_eq-append :
    (p q s : Text) → text_eq s (p ++ q) ≡ on_rest (λ rest. text_eq rest q) (strip p s)
unfolding strip text_eq
text_eq-append [] q s = refl
text_eq-append (c ∷ p) q [] = refl
text_eq-append (c ∷ p) q (d ∷ s) = ground (arith, text_eq-append p q s)

-- For a name without a slash: a text goes on beneath it when it is cut off at a slash.
pub starts_with-cut :
    (name s : Text)
    → contains_slash name ≡ false
    → starts_with (name ++ slash ∷ []) s ≡ (text_eq (cut s).0 name && (cut s).1)
unfolding strip text_eq cut contains_slash
starts_with-cut [] [] h = refl
starts_with-cut [] (d ∷ s) h = ground arith
starts_with-cut (c ∷ name) [] h = refl
starts_with-cut (c ∷ name) (d ∷ s) h = ground (arith, starts_with-cut name s)

pub text_eq-cut :
    (name s : Text)
    → contains_slash name ≡ false
    → text_eq s name ≡ (text_eq (cut s).0 name && not (cut s).1)
unfolding text_eq cut contains_slash
text_eq-cut [] [] h = refl
text_eq-cut [] (d ∷ s) h = ground arith
text_eq-cut (c ∷ name) [] h = refl
text_eq-cut (c ∷ name) (d ∷ s) h = ground (arith, text_eq-cut name s)
