-- ===== src/Compose/Discover/Tests.antt =====
-- The discovery of a directory with one compose file, and calls of it with the cache between.
use mathlib.Core.Path.{subst}
use compose_lock.Prelude.{
  ◌≡◌, ◌∙◌, sym, refl, String, nul_free, true, false, some, none, IsDistinct, List, [], ◌∷◌,
}
use compose_lock.Paths.{FilePath, join_path, clean, parse, show_path}
use compose_lock.Errors.{ok}
use compose_lock.Compose.{Stack, Fs, Entry, is_file}
use compose_lock.Compose.Yaml.{
  str, mapping, field, end, document, eof, yaml_mappings, has_key, at_key,
}
use compose_lock.Strings.{to_lower, ext_of}
use compose_lock.Compose.Kinds.{is_compose_file, is_compose_candidate, sub_dir_of}
use compose_lock.Compose.Discover.{discover, clash, sort_stacks}
use compose_lock.Compose.Discover.Cached.{Library, Scan, scan, empty}
use compose_lock.Compose.Discover.Cached.Readable.{IsPlainPath, IsPlain, HavePlainNames, ArePlain}
use compose_lock.Compose.Discover.Cached.Fresh.{
  Request, IsPlainCall, NoCollision, session, fresh_all, session-fresh,
}
use compose_lock.Compose.Discover.Distinct.{names_of, discover-IsDistinct}

abbrev compose_yaml : Entry
compose_yaml = record { name = "compose.yaml"; is_directory = some false }

abbrev one_file : Fs
one_file = record {
  read_dir = λ p. ok (compose_yaml ∷ []);
  read_yaml = λ p.
      ok (document (mapping (field "services" (mapping (field "web" (str "nginx") end)) end)) eof);
  schema_error = λ m. none;
  stat = λ p. is_file;
}

abbrev app_dir : FilePath
app_dir = record { absolute = true; parts = "srv" ∷ "app" ∷ [] }

abbrev app_stack : Stack
app_stack = record {
  project_name = "app";
  dir = some app_dir;
  files = record { absolute = true; parts = "srv" ∷ "app" ∷ "compose.yaml" ∷ [] } ∷ [];
}

discover-IsDistinct_example : IsDistinct (names_of (app_stack ∷ []))
unfolding discover is_compose_file to_lower ext_of yaml_mappings has_key at_key clash sort_stacks
    join_path clean
discover-IsDistinct_example = discover-IsDistinct one_file app_dir "app" (app_stack ∷ []) refl

abbrev yaml : Library
yaml = record {
  decode = λ t.
      ok (document (mapping (field "services" (mapping (field "web" (str "nginx") end)) end)) eof);
  schema_error = λ m. none;
  hash = λ t. t;
}

-- A call that finds this text in the one file.
abbrev call_with : String → Request
call_with text = record {
  dir = app_dir;
  base = "app";
  raw = record {
    read_dir = λ p. ok (compose_yaml ∷ []);
    read_file = λ p. ok text;
    stat = λ p. is_file;
  };
}

-- The two texts have one length.
abbrev before_push : Request
before_push = call_with "services: {web: {image: nginx}}"

abbrev after_push : Request
after_push = call_with "services: {web: {image: httpd}}"

IsCallApp : Request → Type 0
IsCallApp r = (text : String) × (r ≡ call_with text)

app_scan : String → Scan
app_scan text = record { root = ("compose.yaml", text) ∷ []; folders = [] }

scan-call_with :
    (text : String) → scan (call_with text).raw (call_with text).dir ≡ ok (app_scan text)
unfolding scan app_scan is_compose_file to_lower ext_of is_compose_candidate sub_dir_of
scan-call_with text = refl

ok_inj : (s t : Scan) → ok s ≡ ok t → s ≡ t
ok_inj s t e = cc

app_scan-IsPlain : (text : String) → IsPlain (app_scan text)
unfolding app_scan HavePlainNames ArePlain nul_free
app_scan-IsPlain text = record { root_names = (refl, tt); folders = tt }

app_dir-IsPlainPath : IsPlainPath app_dir
unfolding nul_free clean parse show_path
app_dir-IsPlainPath = record { printable = refl; readable = refl }

call_with-IsPlainCall : (r : Request) → IsCallApp r → IsPlainCall yaml r
unfolding IsCallApp
call_with-IsPlainCall r (text, e) = subst (IsPlainCall yaml) (sym e) (record {
  dir_plain = app_dir-IsPlainPath;
  scan_plain = λ s p.
      subst IsPlain (ok_inj (app_scan text) s (sym (scan-call_with text) ∙ p))
        (app_scan-IsPlain text);
})

no_collision : (q r : Request) → IsCallApp q → IsCallApp r → NoCollision yaml q r
no_collision q r kq kr s t sq tr h = h

-- Between the first call and the second a push changes the file, and after the second it is undone.
abbrev calls : List Request
calls = before_push ∷ after_push ∷ after_push ∷ before_push ∷ []

session-fresh_example : session yaml calls empty ≡ fresh_all yaml calls
unfolding IsCallApp
session-fresh_example =
    session-fresh yaml IsCallApp call_with-IsPlainCall no_collision calls
      ((_, refl), ((_, refl), ((_, refl), ((_, refl), tt))))
