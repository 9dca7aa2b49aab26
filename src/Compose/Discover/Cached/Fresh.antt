-- ===== src/Compose/Discover/Cached/Fresh.antt =====
-- A session of discoveries, with changes of the files between them.
use text.Mathlib.TextPositions.{len-append}
use compose_lock.Prelude.{
  ◌+◌, len, inl, inr, ◌≡◌, ◌≢◌, refl, sym, ◌∙◌, ap, arith, String, ◌<>◌, ◌&&◌, List, [], ◌∷◌, ◌==◌,
  eq_iff, All, Bool-cases,
}
use compose_lock.Errors.{Try, ok, err}
use compose_lock.Paths.{FilePath, show_path}
use compose_lock.Compose.Discover.{Discovery, stacks, no_stacks, broken, discover}
use compose_lock.Compose.Discover.Cached.{
  Raw, Library, fs_of, Scan, scan, scan_text, hashed, fingerprint, Cache, empty, nul, key_of, store,
  answer, cached_discover,
}
use compose_lock.Compose.Discover.Cached.Sound.{discover-found}
use compose_lock.Compose.Discover.Cached.Readable.{IsPlainPath, IsPlain, scan_text-inj, key_of-inj}

-- A call of `Discover`, and the files that it finds.
pub record Request : Type 0 where
  pub dir : FilePath
  pub base : String
  pub raw : Raw

hashed-ok :
    (lib : Library) (s : Try Scan) (fp : String)
    → hashed lib s ≡ ok fp
    → (t : Scan) × ((s ≡ ok t) × (lib.hash (scan_text t) ≡ fp))
unfolding hashed
hashed-ok lib (err e) fp p = absurd (cc)
hashed-ok lib (ok t) fp p = (t, (refl, cc))

no_key : (a b : String) → a <> (nul <> b) ≢ ""
no_key a b e =
    let n : len a + (1 + len b) ≡ 0 =
      sym (len-append a (nul <> b) ∙ ap (λ k. len a + k) (len-append nul b)) ∙ ap len e in
    ground (arith, n)

module _ (lib : Library) where
  abbrev pub fresh : Request → Discovery
  fresh r = discover (fs_of lib r.raw) r.dir r.base

  -- What one call after the other answers.
  unfoldable pub session : List Request → Cache → List Discovery
  session [] cache = []
  session (r ∷ rs) cache =
      let (found, next) = cached_discover lib r.raw r.dir r.base cache in found ∷ session rs next

  unfoldable pub fresh_all : List Request → List Discovery
  fresh_all [] = []
  fresh_all (r ∷ rs) = fresh r ∷ fresh_all rs

  -- A call in a file system: its directory and what is scanned below it are plain.
  pub record IsPlainCall (r : Request) : Type 0 where
    pub dir_plain : IsPlainPath r.dir
    pub scan_plain : (s : Scan) → scan r.raw r.dir ≡ ok s → IsPlain s

  -- The hash tells apart what it is given by these calls.
  abbrev pub NoCollision : Request → Request → Type 0
  NoCollision q r =
      (s t : Scan)
      → scan q.raw q.dir ≡ ok s
      → scan r.raw r.dir ≡ ok t
      → lib.hash (scan_text s) ≡ lib.hash (scan_text t)
      → scan_text s ≡ scan_text t

  module _ (Known : Request → Type 0) (plain : (r : Request) → Known r → IsPlainCall r)
      (no_collision : (q r : Request) → Known q → Known r → NoCollision q r) where
    -- Two calls with one key and one hash are calls for one directory and name that scan the same.
    apart :
        (q r : Request) (s t : Scan)
        → Known q
        → Known r
        → scan q.raw q.dir ≡ ok s
        → scan r.raw r.dir ≡ ok t
        → key_of q.dir q.base ≡ key_of r.dir r.base
        → lib.hash (scan_text s) ≡ lib.hash (scan_text t)
        → (q.dir ≡ r.dir) × ((q.base ≡ r.base) × (s ≡ t))
    apart q r s t kq kr sq tr key h =
        let (dir, base) =
          key_of-inj q.dir r.dir q.base r.base (plain q kq).dir_plain (plain r kr).dir_plain key in
        (
          dir,
          (
            base,
            scan_text-inj s t ((plain q kq).scan_plain s sq) ((plain r kr).scan_plain t tr)
                (no_collision q r kq kr s t sq tr h),
          ),
        )

    IsSound : Cache → Type 0
    IsSound c =
        (q : Request)
        → Known q
        → key_of q.dir q.base ≡ c.key
        → fingerprint lib q.raw q.dir ≡ ok c.fingerprint
        → fresh q ≡ stacks c.stacks

    same_found :
        (q r : Request) (fp : String)
        → Known q
        → Known r
        → key_of q.dir q.base ≡ key_of r.dir r.base
        → fingerprint lib q.raw q.dir ≡ ok fp
        → fingerprint lib r.raw r.dir ≡ ok fp
        → fresh q ≡ fresh r
    unfolding fingerprint
    same_found q r fp kq kr key fq fr =
        let (s, (sq, hq)) = hashed-ok lib (scan q.raw q.dir) fp fq in
        let (t, (tr, hr)) = hashed-ok lib (scan r.raw r.dir) fp fr in
        let (d, (b, st)) = apart q r s t kq kr sq tr key (hq ∙ sym hr) in
        discover-found lib q.raw q.dir q.base s sq
        ∙ rw (d, b, st) refl
        ∙ sym (discover-found lib r.raw r.dir r.base t tr)

    store-IsSound :
        (r : Request) (fp : String) (found : Discovery) (c : Cache)
        → Known r
        → fingerprint lib r.raw r.dir ≡ ok fp
        → fresh r ≡ found
        → IsSound c
        → IsSound (store (key_of r.dir r.base) fp found c)
    unfolding IsSound store
    store-IsSound r fp (stacks ss) c kr fr e sound q kq key fq =
        same_found q r fp kq kr key fq fr ∙ e
    store-IsSound r fp (no_stacks x) c kr fr e sound q kq key fq = sound q kq key fq
    store-IsSound r fp (broken x) c kr fr e sound q kq key fq = sound q kq key fq

    Answered : Request → Discovery × Cache → Type 0
    Answered r a = (a.0 ≡ fresh r) × IsSound a.1

    answer-Answered :
        (r : Request) (fp : Try String) (c : Cache)
        → Known r
        → fingerprint lib r.raw r.dir ≡ fp
        → IsSound c
        → Answered r (answer (key_of r.dir r.base) fp (fresh r) c)
    unfolding Answered answer IsSound
    answer-Answered r (err e) c kr fr sound = (refl, sound)
    answer-Answered r (ok fp) c kr fr sound =
        elim (Bool-cases (c.key == key_of r.dir r.base && c.fingerprint == fp)) [
          | inr miss ↦ rw miss (refl, store-IsSound r fp (fresh r) c kr fr refl sound)
          | inl hit ↦
              let key : c.key ≡ key_of r.dir r.base =
                (eq_iff c.key (key_of r.dir r.base)).0 (ground (arith, hit)) in
              let print : c.fingerprint ≡ fp = (eq_iff c.fingerprint fp).0 (ground (arith, hit)) in
              rw hit (sym (sound r kr (sym key) (fr ∙ ap ok (sym print))), sound)
        ]

    session_sound :
        (rs : List Request) (c : Cache) → All Known rs → IsSound c → session rs c ≡ fresh_all rs
    unfolding session fresh_all cached_discover Answered
    session_sound [] c known sound = refl
    session_sound (r ∷ rs) c known sound =
        let (same, still) = answer-Answered r (fingerprint lib r.raw r.dir) c known.0 refl sound in
        rw (same, session_sound rs _ known.1 still) refl

    empty-IsSound : IsSound empty
    unfolding IsSound key_of
    empty-IsSound q kq key fq = absurd (no_key (show_path q.dir) q.base key)

    -- However the files change between calls of `Discover`, each call that starts with the cache that
    -- the calls before it have left, the first with none, answers as a discovery without a cache does,
    -- errors included: as long as the files stay as they are during a call, the names and paths are
    -- those of a file system, without NUL bytes, and the hash gives no two of the texts that the calls
    -- hash one sum.
    pub session-fresh : (rs : List Request) → All Known rs → session rs empty ≡ fresh_all rs
    session-fresh rs known = session_sound rs empty known empty-IsSound
