-- ===== src/Notify/Context.antt =====
-- The commits that an embed names (`AddCommitContext` of internal/notify/discord.go), and the plain
-- text of an embed for a webhook (internal/notify/notifier.go).
use Prim.Native.Char.{code}
use compose_lock.Prelude.{
  ℕ, zero, suc, String, ◌<>◌, len, ◌&&◌, ◌||◌, Option, none, some, List, [], ◌∷◌, ◌++◌, ltb, beq,
  ◌==◌, join, map, insert, show, if◌then◌else◌,
}
use compose_lock.Strings.{cut}
use compose_lock.Reconcile.{Severity}
use compose_lock.Notify.Embed.{Field, Embed, truncate, short_hash}

pub record CommitInfo : Type 0 where
  pub id : String
  pub subject : String
  pub author : String

pub record CommitContext : Type 0 where
  pub repo_url : String
  pub commit : CommitInfo
  pub base : String
  pub count : ℕ
  pub rollback : Option CommitInfo

abbrev max_subject_len : ℕ
max_subject_len = 100

abbrev max_author_len : ℕ
max_author_len = 64

unfoldable pub link : String → String → String
link repo_url id = "[" <> (short_hash id <> ("](" <> (repo_url <> ("/commit/" <> (id <> ")")))))

unfoldable pub describe_info : String → CommitInfo → String
unfolding link
describe_info repo_url info =
    (if repo_url == "" then "`" <> (short_hash info.id <> "`") else link repo_url info.id)
    <> ((if info.subject == "" then "" else " " <> truncate info.subject max_subject_len)
        <> (if info.author == "" then "" else " (" <> (truncate info.author max_author_len <> ")")))

-- What follows `[` in a link: its text, and what comes after the link.
paren : Option (String × String) → Option String
paren none = none
paren (some (target, rest)) = some rest

link_target : String → Option String
unfolding paren
link_target String.[] = none
link_target (String.◌∷◌ c s) = if beq (code c) b'(' then paren (cut b')' s) else none

with_text : String → Option String → Option (String × String)
with_text text none = none
with_text text (some rest) = some (text, rest)

link_body : Option (String × String) → Option (String × String)
unfolding link_target with_text
link_body none = none
link_body (some (text, rest)) = with_text text (link_target rest)

-- `markdownLink.ReplaceAllString(s, "$1")`. What a link leaves is shorter than the text, so that as
-- much fuel as the text has bytes is enough.
strip_links : ℕ → String → String
unfolding link_body
strip_links zero s = s
strip_links (suc n) String.[] = ""
strip_links (suc n) (String.◌∷◌ c s) =
    let along = String.◌∷◌ c (strip_links n s) in
    elim (if beq (code c) b'[' then link_body (cut b']' s) else none) [
      | none ↦ along
      | some (text, rest) ↦ text <> strip_links n rest
    ]

-- `strings.NewReplacer("**", "", "`", "")`
strip_marks : String → String
strip_marks String.[] = ""
strip_marks (String.◌∷◌ c String.[]) = if beq (code c) b'`' then "" else String.◌∷◌ c ""
strip_marks (String.◌∷◌ c (String.◌∷◌ d s)) =
    let one = strip_marks (String.◌∷◌ d s) in
    let two = strip_marks s in
    if beq (code c) b'*' && beq (code d) b'*'
    then two
    else if beq (code c) b'`'
    then one
    else String.◌∷◌ c one

unfoldable pub plain_text : String → String
unfolding strip_links strip_marks
plain_text s = strip_marks (strip_links (len s) s)

lines_for : CommitContext → Option CommitInfo → List String
unfolding describe_info
lines_for c (some rollback) =
    ("**Failed:** " <> describe_info c.repo_url c.commit)
    ∷ ("**Rollback target:** " <> describe_info c.repo_url rollback)
    ∷ []
lines_for c none =
    if c.commit.subject == "" then [] else truncate c.commit.subject max_subject_len ∷ []

meta_for : CommitContext → Option CommitInfo → List String
meta_for c (some rollback) = []
meta_for c none =
    (if c.commit.author == "" then [] else truncate c.commit.author max_author_len ∷ [])
    ++ (if ltb 1 c.count
        then (show c.count <> (" commits since " <> short_hash c.base)) ∷ []
        else [])

and_meta : List String → List String → List String
and_meta lines [] = lines
and_meta lines (m ∷ ms) = lines ++ join " · " (m ∷ ms) ∷ []

linked_field : CommitContext → Field → Field
unfolding link
linked_field c f =
    if f.name == "Commit" && f.value == short_hash c.commit.id
    then record f { value = link c.repo_url c.commit.id }
    else f

compare_of : CommitContext → String
compare_of c =
    if c.repo_url == "" || (c.base == "" || c.base == c.commit.id)
    then ""
    else c.repo_url <> ("/compare/" <> (c.base <> ("..." <> c.commit.id)))

describe_commit : Embed → CommitContext → Embed
unfolding lines_for meta_for and_meta compare_of linked_field plain_text
describe_commit e c =
    let lines = lines_for c c.rollback in
    let meta = meta_for c c.rollback in
    let compare_url = compare_of c in
    let e' = record e {
      message = plain_text (join "\n" (and_meta lines meta));
      compare_url = if compare_url == "" then e.compare_url else compare_url;
      description = join "\n" (
          and_meta lines (
            meta
            ++ (if compare_url == "" then [] else ("[compare](" <> (compare_url <> ")")) ∷ [])));
    } in
    if c.repo_url == "" then e' else record e' {
      commit_url = c.repo_url <> ("/commit/" <> c.commit.id);
      fields = map (linked_field c) e.fields;
    }

-- The method `AddCommitContext`.
unfoldable pub add_commit_context : Embed → CommitContext → Embed
unfolding describe_commit
add_commit_context e c = if c.commit.id == "" then e else describe_commit e c

abbrev pub webhook_schema_version : ℕ
webhook_schema_version = 1

pub record WebhookPayload : Type 0 where
  pub schema : ℕ
  pub source : String
  pub status : Severity
  pub title : String
  pub message : String
  pub commit : String
  pub commit_url : String
  pub compare_url : String
  pub fields : List (String × String)
  pub timestamp : ℕ

plain_fields : List Field → List (String × String) → List (String × String)
unfolding plain_text
plain_fields [] m = m
plain_fields (f ∷ fs) m = plain_fields fs (insert f.name (plain_text f.value) m)

unfoldable pub webhook_payload : Embed → ℕ → WebhookPayload
unfolding plain_fields
webhook_payload e now = record {
  schema = webhook_schema_version;
  source = "composelock";
  status = e.outcome;
  title = e.title;
  message = if e.message == "" then plain_text e.description else e.message;
  commit = e.commit;
  commit_url = e.commit_url;
  compare_url = e.compare_url;
  fields = plain_fields e.fields [];
  timestamp = now;
}
