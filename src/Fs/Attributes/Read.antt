-- ===== src/Fs/Attributes/Read.antt =====
-- What is read of an object's attributes is what its header says, however the cache was used before.
use neofs_mount.Prelude.{
  ℕ, ◌≡◌, refl, ap, ◌∙◌, ◌⊎◌, inl, inr, Text, Bool, true, false, Option, none, some, List, [], ◌∷◌,
  ◌++◌, is_empty, text_eq, strip-append, Map, lookup, insert, lookup-insert, text_eq_iff,
  if◌then◌else◌, arith, ◌==◌,
}
use neofs_mount.Fs.Retry.{Errno, enoent}
use neofs_mount.Neofs.Objects.{Attribute}
use neofs_mount.Fs.Attributes.{
  FileNode, Head, header, head_error, Attrs, attributes, attrs_error, collect_attrs, after_head,
  served_attrs, or_head, get_attrs, is_recent, default_attr_ttl, Xattr, no_xattr, other, enodata,
  xattr_prefix, value_or, read_xattr, get_key, get_xattr,
}

abbrev or_before : Option Text → Option Text → Option Text
or_before (some v) before = some v
or_before none before = before

-- The value of the last attribute with a key.
unfoldable pub last_value : Text → List Attribute → Option Text
last_value key [] = none
last_value key (a ∷ attrs) =
    or_before (last_value key attrs) (if text_eq a.key key then some a.value else none)

or_before_assoc : (a b c : Option Text) → or_before a (or_before b c) ≡ or_before (or_before a b) c
or_before_assoc none b c = refl
or_before_assoc (some v) b c = refl

lookup-collected :
    (key : Text) (a : Attribute) (m : Map Text)
    → is_empty key ≡ false
    → lookup key (if is_empty a.key then m else insert a.key a.value m)
      ≡ or_before (if text_eq a.key key then some a.value else none) (lookup key m)
lookup-collected key a m filled =
    ground (arith, filled, text_eq_iff a.key key, lookup-insert a.key key a.value m)

collect_attrs-last :
    (key : Text) (attrs : List Attribute) (m : Map Text)
    → is_empty key ≡ false
    → lookup key (collect_attrs attrs m) ≡ or_before (last_value key attrs) (lookup key m)
unfolding collect_attrs last_value
collect_attrs-last key [] m filled = refl
collect_attrs-last key (a ∷ attrs) m filled =
    let found = if text_eq a.key key then some a.value else none in
    collect_attrs-last key attrs (if is_empty a.key then m else insert a.key a.value m) filled
    ∙ ap (or_before (last_value key attrs)) (lookup-collected key a m filled)
    ∙ or_before_assoc (last_value key attrs) found (lookup key m)

or_before-none : (a : Option Text) → or_before a none ≡ a
or_before-none none = refl
or_before-none (some v) = refl

-- A call that reads the attributes: its times, and what the network answers if it is asked.
pub record Call : Type 0 where
  pub now : ℕ
  pub later : ℕ
  pub failure : Option Errno

abbrev pub answered : List Attribute → Option Errno → Head
answered attrs none = header attrs
answered attrs (some e) = head_error e

-- The node after some calls, the last of them first.
unfoldable pub after_calls : List Attribute → List Call → FileNode → FileNode
after_calls attrs [] n = n
after_calls attrs (c ∷ earlier) n =
    (get_attrs c.now c.later (answered attrs c.failure) (after_calls attrs earlier n)).0

-- What a node keeps is what the header says.
abbrev Keeps : List Attribute → Option (Map Text) → Type 0
Keeps attrs none = Unit
Keeps attrs (some m) = m ≡ collect_attrs attrs []

abbrev Says : List Attribute → Attrs → Type 0
Says attrs (attrs_error e) = Unit
Says attrs (attributes m) = m ≡ collect_attrs attrs []

served-Says :
    (attrs : List Attribute) (b : Bool) (kept : Option (Map Text)) (err : Option Errno)
    (n : FileNode) (later : ℕ) (f : Option Errno)
    → Keeps attrs kept
    → Keeps attrs n.attrs
    → let out = or_head later (answered attrs f) n (served_attrs b kept err) in
      Keeps attrs out.0.attrs × Says attrs out.1
unfolding after_head
served-Says attrs false kept err n later none h k = (refl, refl)
served-Says attrs false kept err n later (some e) h k = (k, tt)
served-Says attrs true (some m) none n later f h k = (k, h)
served-Says attrs true (some m) (some e) n later f h k = (k, tt)
served-Says attrs true none (some e) n later f h k = (k, tt)
served-Says attrs true none none n later none h k = (refl, refl)
served-Says attrs true none none n later (some e) h k = (k, tt)

get_attrs-Says :
    (attrs : List Attribute) (now later : ℕ) (f : Option Errno) (n : FileNode)
    → Keeps attrs n.attrs
    → let out = get_attrs now later (answered attrs f) n in
      Keeps attrs out.0.attrs × Says attrs out.1
unfolding get_attrs
get_attrs-Says attrs now later f n k =
    served-Says attrs
      (is_recent now (if n.attr_ttl == 0 then default_attr_ttl else n.attr_ttl) n.attr_fetched)
      n.attrs n.attr_err n later f k k

after_calls-Keeps :
    (attrs : List Attribute) (calls : List Call) (n : FileNode)
    → Keeps attrs n.attrs
    → Keeps attrs (after_calls attrs calls n).attrs
unfolding after_calls
after_calls-Keeps attrs [] n k = k
after_calls-Keeps attrs (c ∷ earlier) n k =
    (get_attrs-Says attrs c.now c.later c.failure (after_calls attrs earlier n)
      (after_calls-Keeps attrs earlier n k)).0

served-obj :
    (attrs : List Attribute) (a : Option Attrs) (n : FileNode) (later : ℕ) (f : Option Errno)
    → (or_head later (answered attrs f) n a).0.obj ≡ n.obj
unfolding after_head
served-obj attrs none n later none = refl
served-obj attrs none n later (some e) = refl
served-obj attrs (some a) n later f = refl

after_calls-obj :
    (attrs : List Attribute) (calls : List Call) (n : FileNode)
    → (after_calls attrs calls n).obj ≡ n.obj
unfolding after_calls get_attrs
after_calls-obj attrs [] n = refl
after_calls-obj attrs (c ∷ earlier) n =
    served-obj attrs _ (after_calls attrs earlier n) c.later c.failure
    ∙ after_calls-obj attrs earlier n

read_xattr-last :
    (attrs : List Attribute) (key : Text) (dest : ℕ) (p : FileNode × Attrs)
    → is_empty key ≡ false
    → Says attrs p.1
    → ((read_xattr key dest p).1 ≡ value_or dest (last_value key attrs))
      ⊎ ((e : Errno) × ((read_xattr key dest p).1 ≡ no_xattr (other e)))
unfolding read_xattr lookup
read_xattr-last attrs key dest (n, attrs_error e) filled says = inr (e, refl)
read_xattr-last attrs key dest (n, attributes m) filled says = inl (
    ap (λ o. value_or dest (lookup key o)) says
    ∙ ap (value_or dest)
        (collect_attrs-last key attrs [] filled ∙ or_before-none (last_value key attrs)))

get_xattr-read :
    (now later : ℕ) (head : Head) (key : Text) (dest : ℕ) (n : FileNode)
    → is_empty n.obj ≡ false
    → is_empty key ≡ false
    → get_xattr now later head (xattr_prefix ++ key) dest n
      ≡ read_xattr key dest (get_attrs now later head n)
unfolding get_xattr
get_xattr-read now later head key dest n there filled =
    ap (get_key now later head dest n) (strip-append xattr_prefix key)
    ∙ ap (λ b. if b then (n, no_xattr (other enoent)) else rest) there
    ∙ ap
        (λ b. if b then (n, no_xattr enodata) else read_xattr key dest (get_attrs now later head n))
        filled
  where
    rest : FileNode × Xattr
    rest =
        if is_empty key
        then (n, no_xattr enodata)
        else read_xattr key dest (get_attrs now later head n)

-- For a node whose object has some attributes, after any calls that read them, at any times and with
-- any failures of the network, Getxattr of a name answers the value of the object's last attribute with
-- that key, as the buffer allows, or that there is none if it has none; or else it answers an error of
-- the network.
pub get_xattr-last_value :
    (attrs : List Attribute) (calls : List Call) (c : Call) (key : Text) (dest : ℕ) (n : FileNode)
    → is_empty n.obj ≡ false
    → is_empty key ≡ false
    → n.attrs ≡ none
    → let out =
        get_xattr c.now c.later
          (answered attrs c.failure)
          (xattr_prefix ++ key)
          dest
          (after_calls attrs calls n) in
      (out.1 ≡ value_or dest (last_value key attrs)) ⊎ ((e : Errno) × (out.1 ≡ no_xattr (other e)))
get_xattr-last_value attrs calls c key dest n there filled new =
    let u = after_calls attrs calls n in
    let kept : Keeps attrs u.attrs = after_calls-Keeps attrs calls n (rw new tt) in
    rw
      (get_xattr-read c.now c.later (answered attrs c.failure) key dest u
        (ap is_empty (after_calls-obj attrs calls n) ∙ there) filled)
      (read_xattr-last attrs key dest (get_attrs c.now c.later (answered attrs c.failure) u) filled
        (get_attrs-Says attrs c.now c.later c.failure u kept).1)
