-- ===== src/Compose/Discover/Cached/Readable.antt =====
-- What the fingerprint hashes, and the key of the cache, can be read back: internal/compose/discover.go.
use Prim.Native.Char.{code}
use text.Mathlib.TextLemmas.{nil-append, cons-append}
use text.Mathlib.TextPositions.{len-append, slice-append_left, slice-append_right}
use compose_lock.Prelude.{
  ◌+◌, ◌≡◌, ◌≢◌, refl, sym, ap, ◌∙◌, arith, String, ◌<>◌, ◌==◌, eq_iff, len, slice, true, false,
  List, [], ◌∷◌, beq, show, nul_free, nul_free-show, show_inj, if◌then◌else◌,
}
use compose_lock.Paths.{FilePath, parse, clean, show_path}
use compose_lock.Compose.Discover.Cached.{
  Contents, Scan, nul, contents_text, folders_text, scan_text, key_of,
}

-- What stands before the first NUL of a text, and behind it.
before_nul : String → String
before_nul String.[] = ""
before_nul (String.◌∷◌ c s) =
    let rest = before_nul s in if beq (code c) 0 then "" else String.◌∷◌ c rest

behind_nul : String → String
behind_nul String.[] = ""
behind_nul (String.◌∷◌ c s) = let rest = behind_nul s in if beq (code c) 0 then s else rest

before_nul-append : (a x : String) → nul_free a ≡ true → before_nul (a <> (nul <> x)) ≡ a
unfolding before_nul nul_free
before_nul-append String.[] x h = rw (nil-append (nul <> x), cons-append "\0" "" x) refl
before_nul-append (String.◌∷◌ c a) x h =
    let other : beq (code c) 0 ≡ false = ground (arith, h) in
    rw (cons-append c a (nul <> x), other, before_nul-append a x (ground (arith, h))) refl

behind_nul-append : (a x : String) → nul_free a ≡ true → behind_nul (a <> (nul <> x)) ≡ x
unfolding behind_nul nul_free
behind_nul-append String.[] x h =
    rw (nil-append (nul <> x), cons-append "\0" "" x, nil-append x) refl
behind_nul-append (String.◌∷◌ c a) x h =
    let other : beq (code c) 0 ≡ false = ground (arith, h) in
    rw (cons-append c a (nul <> x), other, behind_nul-append a x (ground (arith, h))) refl

split_at_nul :
    (a b x y : String)
    → nul_free a ≡ true
    → nul_free b ≡ true
    → a <> (nul <> x) ≡ b <> (nul <> y)
    → (a ≡ b) × (x ≡ y)
split_at_nul a b x y ha hb e = (
  sym (before_nul-append a x ha) ∙ (ap before_nul e ∙ before_nul-append b y hb),
  sym (behind_nul-append a x ha) ∙ (ap behind_nul e ∙ behind_nul-append b y hb),
)

split_at_len : (a b x y : String) → len a ≡ len b → a <> x ≡ b <> y → (a ≡ b) × (x ≡ y)
split_at_len a b x y l e =
    let same : a ≡ b =
      sym (slice-append_left a x)
      ∙ (ap (λ s. slice s 0 (len a)) e
          ∙ (ap (λ n. slice (b <> y) 0 n) l ∙ slice-append_left b y)) in
    let long : len a + len x ≡ len b + len y = sym (len-append a x) ∙ (ap len e ∙ len-append b y) in
    let rest : len x ≡ len y = ground (arith, l, long) in
    (
      same,
      sym (slice-append_right a x)
          ∙ (ap (λ s. slice s (len a) (len a + len x)) e
              ∙ (rw (l, rest) refl ∙ slice-append_right b y)),
    )

-- The name of a directory: the last part of its path.
unfoldable pub last_part : List String → String
last_part [] = ""
last_part (p ∷ []) = p
last_part (p ∷ q ∷ ps) = last_part (q ∷ ps)

-- A path that its text gives, as every clean path of a file system does.
pub record IsPlainPath (p : FilePath) : Type 0 where
  pub printable : nul_free (show_path p) ≡ true
  pub readable : clean (parse (show_path p)) ≡ p

unfoldable pub HavePlainNames : Contents → Type 0
HavePlainNames [] = Unit
HavePlainNames ((name, text) ∷ rest) = (nul_free name ≡ true) × HavePlainNames rest

unfoldable pub ArePlain : List ((FilePath × String) × Contents) → Type 0
unfolding HavePlainNames last_part
ArePlain [] = Unit
ArePlain (((dir, name), files) ∷ rest) =
    IsPlainPath dir × ((name ≡ last_part dir.parts) × (HavePlainNames files × ArePlain rest))

-- A scan of a file system, in which no name has a NUL byte and a directory is named by its path.
pub record IsPlain (s : Scan) : Type 0 where
  pub root_names : HavePlainNames s.root
  pub folders : ArePlain s.folders

IsPlainPath-inj :
    (p q : FilePath) → IsPlainPath p → IsPlainPath q → show_path p ≡ show_path q → p ≡ q
IsPlainPath-inj p q hp hq e = sym hp.readable ∙ (ap (λ s. clean (parse s)) e ∙ hq.readable)

f_free : nul_free "f" ≡ true
unfolding nul_free
f_free = refl

d_free : nul_free "d" ≡ true
unfolding nul_free
d_free = refl

-- No file begins the text.
BeginsNoFile : String → Type 0
BeginsNoFile s = (before_nul s == "f") ≡ false

not_begun : (u x : String) → BeginsNoFile u → u ≢ "f" <> (nul <> x)
unfolding BeginsNoFile
not_begun u x h e =
    let begins : before_nul u ≡ "f" = ap before_nul e ∙ before_nul-append "f" x f_free in
    let same : (before_nul u == "f") ≡ true = (eq_iff (before_nul u) "f").1 begins in
    ground (arith, h, same)

contents_text-inj :
    (xs ys : Contents) (u v : String)
    → HavePlainNames xs
    → HavePlainNames ys
    → BeginsNoFile u
    → BeginsNoFile v
    → contents_text xs u ≡ contents_text ys v
    → (xs ≡ ys) × (u ≡ v)
unfolding contents_text HavePlainNames
contents_text-inj [] [] u v hx hy hu hv e = (refl, e)
contents_text-inj [] ((m, t) ∷ ys) u v hx hy hu hv e = absurd (not_begun u _ hu e)
contents_text-inj ((n, s) ∷ xs) [] u v hx hy hu hv e = absurd (not_begun v _ hv (sym e))
contents_text-inj ((n, s) ∷ xs) ((m, t) ∷ ys) u v hx hy hu hv e =
    let (_, named) = split_at_nul "f" "f" _ _ f_free f_free e in
    let (name, sized) = split_at_nul n m _ _ hx.0 hy.0 named in
    let (size, written) =
      split_at_nul (show (len s)) (show (len t)) _ _ (nul_free-show (len s)) (nul_free-show (len t))
        sized in
    let (text, others) = split_at_len s t _ _ (show_inj (len s) (len t) size) written in
    let (files, after) = contents_text-inj xs ys u v hx.1 hy.1 hu hv others in
    (rw (name, text, files) refl, after)

folders_text-BeginsNoFile :
    (ds : List ((FilePath × String) × Contents)) → BeginsNoFile (folders_text ds)
unfolding BeginsNoFile folders_text before_nul
folders_text-BeginsNoFile [] = refl
folders_text-BeginsNoFile (((dir, name), files) ∷ ds) = rw (before_nul-append "d" _ d_free) refl

no_text : (a x : String) → "" ≢ a <> (nul <> x)
no_text a x e =
    let n : 0 ≡ len a + (1 + len x) =
      ap len e ∙ (len-append a (nul <> x) ∙ ap (λ k. len a + k) (len-append nul x)) in
    ground (arith, n)

folders_text-inj :
    (ds es : List ((FilePath × String) × Contents))
    → ArePlain ds
    → ArePlain es
    → folders_text ds ≡ folders_text es
    → ds ≡ es
unfolding folders_text ArePlain
folders_text-inj [] [] hd he e = refl
folders_text-inj [] (((q, m), ys) ∷ es) hd he e = absurd (no_text "d" _ e)
folders_text-inj (((p, n), xs) ∷ ds) [] hd he e = absurd (no_text "d" _ (sym e))
folders_text-inj (((p, n), xs) ∷ ds) (((q, m), ys) ∷ es) hd he e =
    let (_, shown) = split_at_nul "d" "d" _ _ d_free d_free e in
    let (path, written) =
      split_at_nul (show_path p) (show_path q) _ _ hd.0.printable he.0.printable shown in
    let (files, others) =
      contents_text-inj xs ys (folders_text ds) (folders_text es) hd.1.1.0 he.1.1.0
        (folders_text-BeginsNoFile ds) (folders_text-BeginsNoFile es) written in
    let dir : p ≡ q = IsPlainPath-inj p q hd.0 he.0 path in
    let name : n ≡ m = hd.1.0 ∙ (ap (λ d. last_part d.parts) dir ∙ sym he.1.0) in
    rw (dir, name, files, folders_text-inj ds es hd.1.1.1 he.1.1.1 others) refl

-- Of two plain scans, the same bytes are hashed only where the scans are the same.
pub scan_text-inj : (s t : Scan) → IsPlain s → IsPlain t → scan_text s ≡ scan_text t → s ≡ t
unfolding scan_text
scan_text-inj s t hs ht e =
    let (root, written) =
      contents_text-inj s.root t.root (folders_text s.folders) (folders_text t.folders)
        hs.root_names ht.root_names (folders_text-BeginsNoFile s.folders)
        (folders_text-BeginsNoFile t.folders) e in
    let folders = folders_text-inj s.folders t.folders hs.folders ht.folders written in
    λ i. record { root = root i; folders = folders i }

-- A key of the cache tells the directory and the name.
pub key_of-inj :
    (d e : FilePath) (base name : String)
    → IsPlainPath d
    → IsPlainPath e
    → key_of d base ≡ key_of e name
    → (d ≡ e) × (base ≡ name)
unfolding key_of
key_of-inj d e base name hd he k =
    let (path, same) =
      split_at_nul (show_path d) (show_path e) base name hd.printable he.printable k in
    (IsPlainPath-inj d e hd he path, same)
