-- ===== src/Cache/Program.antt =====
-- internal/cache/cache.go: `GetOrFetch` and `StoreFromPath` as programs. A goroutine in `GetOrFetch`
-- stands at one point of it between two stretches under `c.mu`; `advance` is what it does next.
-- What the operating system, the clock, the channels and the `fetch` callback answer comes in as
-- an `Answer`; `join` stands for `filepath.Join`.
use neofs_mount.Prelude.{
  ℕ, Text, codes, Bool, Option, none, some, List, [], ◌∷◌, ◌++◌, is_empty, ◌==◌, if◌then◌else◌,
}
use neofs_mount.Cache.State.{Cache, Error, Result, ok, err, nil_cache, empty_key, empty_src_path}
use neofs_mount.Cache.Sections.{Begin, hit, wait, fetch, look, drop_stale, finish_fetch, store}
use neofs_mount.Cache.Evict.{evict_if_needed}

-- What a call does to the directory, in order.
pub data FileOp : Type 0 where
  remove create : Text → FileOp
  rename : Text → Text → FileOp

-- The outcomes of one download: of `OpenFile`, of the callback, of `Close`, `Stat` and `Rename`.
pub record Download : Type 0 where
  pub opened : Option Error
  pub payload : Option Error
  pub closed : Option Error
  pub stat : Result ℕ
  pub renamed : Option Error

pub record Answer : Type 0 where
  pub now : ℕ
  pub channel : ℕ
  pub stat : Result ℕ
  pub cancelled : Option Error
  pub download : Download

pub data Point : Type 0 where
  looking : Point
  checking : Text → ℕ → Point
  waiting : Point
  fetching : Point
  evicting : Text → ℕ → Point
  returned : Result (Text × ℕ) → Point

-- `err` after the callback and `Close`.
unfoldable pub write_error : Download → Option Error
write_error d = elim d.payload [ some e ↦ some e | none ↦ d.closed ]

put_in_place : Text → Text → ℕ → Option Error → Result ℕ × List FileOp
put_in_place tmp final n (some e) = (err e, remove tmp ∷ [])
put_in_place tmp final n none = (ok n, rename tmp final ∷ [])

measure : Text → Text → Download → Result ℕ → Result ℕ × List FileOp
unfolding put_in_place
measure tmp final d (err e) = (err e, remove tmp ∷ [])
measure tmp final d (ok n) = put_in_place tmp final n d.renamed

written : Text → Text → Download → Option Error → Result ℕ × List FileOp
unfolding measure
written tmp final d (some e) = (err e, remove tmp ∷ [])
written tmp final d none = measure tmp final d d.stat

after_open : Text → Text → Download → Option Error → Result ℕ × List FileOp
unfolding written write_error
after_open tmp final d (some e) = (err e, [])
after_open tmp final d none =
    let (r, ops) = written tmp final d (write_error d) in (r, create tmp ∷ ops)

-- The middle of `GetOrFetch`, outside the lock: the payload goes to the temporary file, which is
-- renamed to its place when it is whole.
unfoldable pub download : Text → Text → Download → Result ℕ × List FileOp
unfolding after_open
download tmp final d = let (r, ops) = after_open tmp final d d.opened in (r, remove tmp ∷ ops)

unfoldable pub removals : List Text → List FileOp
removals [] = []
removals (x ∷ xs) = remove x ∷ removals xs

module _ (join : Text → Text → Text) where
  abbrev pub final_path : Cache → Text → Text
  final_path c key = join c.dir (key ++ codes ".blob")

  abbrev pub tmp_path : Cache → Text → Text
  tmp_path c key = final_path c key ++ codes ".tmp"

  unfoldable pub go_on : Begin → Point
  go_on (hit path size) = checking path size
  go_on wait = waiting
  go_on fetch = fetching

  unfoldable pub check_blob : Text → Text → ℕ → Result ℕ → Cache → Point × Cache
  check_blob key path size (err e) c = (looking, drop_stale key path size c)
  check_blob key path size (ok n) c =
      if n == size then (returned (ok (path, size)), c) else (looking, drop_stale key path size c)

  unfoldable pub end_fetch : Text → Result ℕ → Cache → Point × Cache
  end_fetch key (err e) c = (returned (err e), (finish_fetch key [] 0 (some e) c).0)
  end_fetch key (ok n) c =
      let path = final_path c key in (evicting path n, (finish_fetch key path n none c).0)

  -- One step of a goroutine in `GetOrFetch(key)`.
  unfoldable pub advance : Text → Answer → Point → Cache → Point × Cache
  unfolding go_on check_blob end_fetch
  advance key a looking c = let (c', b) = look key a.now a.channel c in (go_on b, c')
  advance key a (checking path size) c = check_blob key path size a.stat c
  advance key a waiting c = elim a.cancelled [
    | some e ↦ (returned (err e), c)
    | none ↦ (looking, c)
  ]
  advance key a fetching c =
      end_fetch key (download (tmp_path c key) (final_path c key) a.download).0 c
  advance key a (evicting path size) c = (returned (ok (path, size)), (evict_if_needed c).0)
  advance key a (returned r) c = (returned r, c)

  -- The tests before the loop, and where the call stands after them.
  unfoldable pub enter : Bool → Text → Point
  enter is_nil key =
      if is_nil
      then returned (err nil_cache)
      else if is_empty key
      then returned (err empty_key)
      else looking

  -- A goroutine that is not interrupted between its steps.
  unfoldable pub run : Text → List Answer → Point → Cache → Point × Cache
  unfolding advance
  run key [] p c = (p, c)
  run key (a ∷ answers) p c = let (p', c') = advance key a p c in run key answers p' c'

  unfoldable pub moved :
      Text → Text → ℕ → ℕ → Option Error → Cache → Result (Text × ℕ) × Cache × List FileOp
  moved key src size now (some e) c = (err e, c, [])
  moved key src size now none c =
      let path = final_path c key in
      let (c', removed) = store key path size now c in
      (ok (path, size), c', rename src path ∷ removals removed)

  unfoldable pub source_found :
      Text → Text → Result ℕ → Option Error → ℕ → Cache → Result (Text × ℕ) × Cache × List FileOp
  unfolding moved
  source_found key src (err e) renamed now c = (err e, c, [])
  source_found key src (ok size) renamed now c = moved key src size now renamed c

  -- `StoreFromPath` of a cache that is not nil, before the `evictIfNeeded` that it starts beside itself; `stat` and `renamed`
  -- are the outcomes of `os.Stat` of the source and of `os.Rename`.
  unfoldable pub store_from_path :
      Text → Text → Result ℕ → Option Error → ℕ → Cache → Result (Text × ℕ) × Cache × List FileOp
  unfolding source_found removals
  store_from_path key src stat renamed now c =
      if is_empty key
      then (err empty_key, c, [])
      else if is_empty src
      then (err empty_src_path, c, [])
      else source_found key src stat renamed now c
