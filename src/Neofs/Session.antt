-- ===== src/Neofs/Session.antt =====
-- internal/neofs/client.go: `getOrCreateObjectSession`. Epochs are uint64. What the network and the
-- signer answer is an argument; a token is what the code sets of it.
pub mod Valid
mod Checks
use neofs_mount.Prelude.{
  ℕ, ◌+◌, ◌%◌, ◌^◌, Text, Bool, true, false, ◌&&◌, Option, none, some, List, [], ◌∷◌, text_eq, ltb,
  ◌==◌, if◌then◌else◌,
}

-- `sessionCacheKey`; a verb is a number.
pub record Key : Type 0 where
  pub container : Text
  pub verb : ℕ

pub record Token : Type 0 where
  pub id : Text
  pub container : Text
  pub verb : ℕ
  pub nbf : ℕ
  pub iat : ℕ
  pub exp : ℕ

-- `cachedSession`
pub record CachedSession : Type 0 where
  pub epoch_exp : ℕ
  pub token : Token

abbrev pub key_eq : Key → Key → Bool
key_eq j k = text_eq j.container k.container && j.verb == k.verb

unfoldable pub find_session : Key → List (Key × CachedSession) → Option CachedSession
find_session k [] = none
find_session k ((j, s) ∷ cache) = if key_eq j k then some s else find_session k cache

abbrev pub epoch_add : ℕ → ℕ → ℕ
epoch_add curr n = (curr + n) % 2 ^ 64

-- What a call comes to.
pub data Session : Type 0 where
  token : Token → Session
  failed : ℕ → Session

pub data Epoch : Type 0 where
  current : ℕ → Epoch
  no_network : ℕ → Epoch

-- What the creation of a session answers, its key, its id and the signature included: an id.
pub data Created : Type 0 where
  created : Text → Created
  not_created : ℕ → Created

-- The new token is written over the old one of its key.
unfoldable pub create_session :
    Key → ℕ → Created → List (Key × CachedSession) → List (Key × CachedSession) × Session
create_session k curr (not_created e) cache = (cache, failed e)
create_session k curr (created id) cache =
    let exp = epoch_add curr 20 in
    let tok : Token = record {
      id = id;
      container = k.container;
      verb = k.verb;
      nbf = curr;
      iat = curr;
      exp = exp;
    } in
    ((k, record { epoch_exp = exp; token = tok }) ∷ cache, token tok)

abbrev pub reuse :
    Key
    → ℕ
    → Created
    → List (Key × CachedSession)
    → Option CachedSession
    → List (Key × CachedSession) × Session
reuse k curr answer cache none = create_session k curr answer cache
reuse k curr answer cache (some ent) =
    if ltb (epoch_add curr 1) ent.epoch_exp
    then (cache, token ent.token)
    else create_session k curr answer cache

unfoldable pub get_or_create_object_session :
    Key → Epoch → Created → List (Key × CachedSession) → List (Key × CachedSession) × Session
get_or_create_object_session k (no_network e) answer cache = (cache, failed e)
get_or_create_object_session k (current curr) answer cache =
    reuse k curr answer cache (find_session k cache)
