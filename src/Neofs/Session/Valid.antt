-- ===== src/Neofs/Session/Valid.antt =====
-- The session that a call gets is for its container and verb, and outlives the next epoch.
use neofs_mount.Prelude.{
  ℕ, ◌+◌, ◌^◌, ◌≤◌, ◌<◌, ◌≡◌, refl, ◌∙◌, true, Option, none, some, List, [], ◌∷◌, text_eq_iff, ltb,
  arith, Bool-cases, inl, inr,
}
use neofs_mount.Neofs.Session.{
  Key, Token, CachedSession, key_eq, find_session, epoch_add, Session, token, failed, current,
  Created, created, not_created, create_session, reuse, get_or_create_object_session,
}

-- A kept token is for its key, began in an epoch that has come, and is kept with its own expiry.
pub record IsKept (curr : ℕ) (k : Key) (s : CachedSession) : Type 0 where
  pub container : s.token.container ≡ k.container
  pub verb : s.token.verb ≡ k.verb
  pub begun : s.token.nbf ≤ curr
  pub expiry : s.token.exp ≡ s.epoch_exp

abbrev pub AllKept : ℕ → List (Key × CachedSession) → Type 0
AllKept curr [] = Unit
AllKept curr ((k, s) ∷ cache) = IsKept curr k s × AllKept curr cache

-- A token for a key that is valid in an epoch and in the next one.
pub record Serves (curr : ℕ) (k : Key) (tok : Token) : Type 0 where
  pub container : tok.container ≡ k.container
  pub verb : tok.verb ≡ k.verb
  pub begun : tok.nbf ≤ curr
  pub lasts : curr + 1 < tok.exp

-- What a call comes to when the sessions were created as `answer` says.
abbrev pub Gets : ℕ → Key → Created → Session → Type 0
Gets curr k (created id) s = (tok : Token) × (s ≡ token tok) × Serves curr k tok
Gets curr k (not_created e) (token tok) = Serves curr k tok
Gets curr k (not_created e) (failed x) = x ≡ e

find_session-IsKept :
    (curr : ℕ) (k : Key) (cache : List (Key × CachedSession)) (s : CachedSession)
    → AllKept curr cache
    → find_session k cache ≡ some s
    → IsKept curr k s
unfolding find_session
find_session-IsKept curr k [] s h e = cc
find_session-IsKept curr k ((j, x) ∷ cache) s (p, h) e = elim (Bool-cases (key_eq j k)) [
  | inr t ↦ find_session-IsKept curr k cache s h (ground (arith, t, e))
  | inl t ↦
      let same : x ≡ s = ground (arith, t, e) in
      let c : j.container ≡ k.container =
        (text_eq_iff j.container k.container).0 (ground (arith, t)) in
      let v : j.verb ≡ k.verb = ground (arith, t) in
      let q : IsKept curr k x = record {
        container = p.container ∙ c;
        verb = p.verb ∙ v;
        begun = p.begun;
        expiry = p.expiry;
      } in
      rw (← same) q
]

module _ (curr : ℕ) (small : curr + 20 < 2 ^ 64) (k : Key) (cache : List (Key × CachedSession))
    (kept : AllKept curr cache) where
  no_wrap : (n : ℕ) → n ≤ 20 → epoch_add curr n ≡ curr + n
  no_wrap n h = omega (arith, small)

  create_session-Gets :
      (answer : Created)
      → AllKept curr (create_session k curr answer cache).0
        × Gets curr k answer (create_session k curr answer cache).1
  unfolding create_session
  create_session-Gets (not_created e) = (kept, refl)
  create_session-Gets (created id) = (
    (record { container = refl; verb = refl; begun = omega arith; expiry = refl }, kept),
    (
      _,
      refl,
      record {
        container = refl;
        verb = refl;
        begun = omega arith;
        lasts = rw (no_wrap 20 (omega arith)) (omega arith);
      },
    ),
  )

  reused-Serves :
      (s : CachedSession)
      → IsKept curr k s
      → ltb (epoch_add curr 1) s.epoch_exp ≡ true
      → Serves curr k s.token
  reused-Serves s p t = record {
    container = p.container;
    verb = p.verb;
    begun = p.begun;
    lasts = ground (arith, no_wrap 1 (omega arith), p.expiry, t);
  }

  reused-Gets :
      (s : CachedSession) (answer : Created)
      → Serves curr k s.token
      → Gets curr k answer (token s.token)
  reused-Gets s (created id) p = (s.token, refl, p)
  reused-Gets s (not_created e) p = p

  reuse-Gets :
      (answer : Created) (o : Option CachedSession)
      → find_session k cache ≡ o
      → AllKept curr (reuse k curr answer cache o).0
        × Gets curr k answer (reuse k curr answer cache o).1
  reuse-Gets answer none e = create_session-Gets answer
  reuse-Gets answer (some s) e = elim (Bool-cases (ltb (epoch_add curr 1) s.epoch_exp)) [
    | inr t ↦ rw t (create_session-Gets answer)
    | inl t ↦
        rw t (
          kept,
          reused-Gets s answer (reused-Serves s (find_session-IsKept curr k cache s kept e) t),
        )
  ]

-- In an epoch far from the end of the numbers, with kept tokens that are for their keys, begun and
-- kept with their own expiry, a call for a container and a verb keeps the tokens so, and gets a token
-- for that container and verb that has begun and is valid past the next epoch, unless no session
-- could be created: then it gets such a token all the same, or the error of the creation.
pub get_or_create_object_session-Gets :
    (curr : ℕ) (k : Key) (answer : Created) (cache : List (Key × CachedSession))
    → curr + 20 < 2 ^ 64
    → AllKept curr cache
    → AllKept curr (get_or_create_object_session k (current curr) answer cache).0
      × Gets curr k answer (get_or_create_object_session k (current curr) answer cache).1
unfolding get_or_create_object_session
get_or_create_object_session-Gets curr k answer cache small kept =
    reuse-Gets curr small k cache kept answer (find_session k cache) refl
