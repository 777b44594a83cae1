-- ===== src/Neofs/Session/Checks.antt =====
-- Sessions at a concrete epoch.
use neofs_mount.Prelude.{refl, codes, List, [], ◌∷◌, arith}
use neofs_mount.Neofs.Session.{
  Key, Token, CachedSession, current, created, get_or_create_object_session,
}
use neofs_mount.Neofs.Session.Valid.{AllKept, Gets, get_or_create_object_session-Gets}

abbrev deletes : Key
deletes = record { container = codes "c"; verb = 4 }

-- A token that expires too soon to be used again.
abbrev old : Token
old = record { id = codes "x"; container = codes "c"; verb = 4; nbf = 80; iat = 80; exp = 100 }

abbrev cache : List (Key × CachedSession)
cache = (deletes, record { epoch_exp = 100; token = old }) ∷ []

cache-AllKept : AllKept 99 cache
cache-AllKept = (record { container = refl; verb = refl; begun = omega arith; expiry = refl }, tt)

get_or_create_object_session-Gets_example :
    AllKept 99 (get_or_create_object_session deletes (current 99) (created (codes "y")) cache).0
    × Gets 99 deletes
        (created (codes "y"))
        (get_or_create_object_session deletes (current 99) (created (codes "y")) cache).1
get_or_create_object_session-Gets_example =
    get_or_create_object_session-Gets 99 deletes (created (codes "y")) cache (omega arith)
      cache-AllKept
