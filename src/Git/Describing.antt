-- ===== src/Git/Describing.antt =====
-- What internal/git/git.go finds out for notifications: a commit's subject and author, how many commits
-- lie between two, and the web address of the repository. `git` answers a command by its arguments,
-- with the spaces around its output gone; `parse_url` is of net/url.
use Prim.Native.Char.{code}
use compose_lock.Prelude.{
  ℕ, String, ◌<>◌, Bool, true, not, ◌&&◌, ◌||◌, Option, none, some, List, [], ◌∷◌, beq, ◌==◌,
  if◌then◌else◌,
}
use compose_lock.Strings.{trim_space, cut, has_substring, trim_suffix, atoi}
use compose_lock.Errors.{Err, plain, wrap, Try, ok, err, join_errors}
use compose_lock.Git.{check_commit}

-- The parts of a `url.URL` that are read.
pub record RemoteUrl : Type 0 where
  pub scheme : String
  pub host : String
  pub host_name : String
  pub path : String

before_nul : Option (String × String) → String → String × String
before_nul none out = (out, "")
before_nul (some (subject, author)) out = (subject, author)

no_slash : String → Bool
no_slash String.[] = true
no_slash (String.◌∷◌ c s) = not (beq (code c) b'/' || beq (code c) b'\\') && no_slash s

slash_left : String → String
slash_left String.[] = ""
slash_left (String.◌∷◌ c s) =
    let rest = slash_left s in if beq (code c) b'/' then rest else String.◌∷◌ c s

slash_right : String → String
slash_right String.[] = ""
slash_right (String.◌∷◌ c s) =
    let rest = slash_right s in if beq (code c) b'/' && rest == "" then "" else String.◌∷◌ c rest

-- The private `webURL`, which trims the slashes of the path on both sides.
unfoldable pub web_address : String → String → String → String
unfolding slash_left slash_right
web_address scheme host raw =
    let path = trim_suffix (slash_right (slash_left raw)) ".git" in
    if host == "" || path == "" then "" else scheme <> ("://" <> (host <> ("/" <> path)))

after_at : Option (String × String) → String → String
after_at none remote = remote
after_at (some (user, rest)) remote = rest

-- `user@host:path`
scp_address : Option (String × String) → String
unfolding no_slash
scp_address none = ""
scp_address (some (host, path)) =
    if host == "" || not (no_slash host) then "" else web_address "https" host path

url_address : Option RemoteUrl → String
url_address none = ""
url_address (some u) =
    if u.scheme == "https" || u.scheme == "http"
    then web_address u.scheme u.host u.path
    else if u.scheme == "ssh" || (u.scheme == "git" || u.scheme == "git+ssh")
    then web_address "https" u.host_name u.path
    else ""

unfoldable pub web_url : (String → Option RemoteUrl) → String → String
unfolding after_at scp_address url_address
web_url parse_url raw =
    let remote = trim_space raw in
    if has_substring remote "://"
    then url_address (parse_url remote)
    else scp_address (cut b':' (after_at (cut b'@' remote) remote))

module _ (git : List String → Try String) where
  described : String → Try String → Try (String × String)
  unfolding before_nul
  described commit (err e) = err (wrap ("git log " <> commit) e)
  described commit (ok out) = ok (before_nul (cut 0 out) out)

  describe_checked : String → Option Err → Try (String × String)
  unfolding described
  describe_checked commit (some e) = err (wrap "git log" e)
  describe_checked commit none =
      described commit (git ("log" ∷ "-1" ∷ "--format=%s%x00%an" ∷ commit ∷ []))

  unfoldable pub describe : String → Try (String × String)
  unfolding describe_checked
  describe commit = describe_checked commit (check_commit commit)

  -- The error of `strconv.Atoi` is left out of the text.
  counted : String → Option ℕ → Try ℕ
  counted out none = err (plain ("git rev-list: parsing count \"" <> (out <> "\"")))
  counted out (some n) = ok n

  count_printed : Try String → Try ℕ
  unfolding counted
  count_printed (err e) = err (wrap "git rev-list" e)
  count_printed (ok out) = counted out (atoi out)

  count_checked : String → String → Option Err → Try ℕ
  unfolding count_printed
  count_checked base commit (some e) = err (wrap "git rev-list" e)
  count_checked base commit none =
      count_printed (git ("rev-list" ∷ "--count" ∷ (base <> (".." <> commit)) ∷ []))

  unfoldable pub count_commits : String → String → Try ℕ
  unfolding count_checked
  count_commits base commit =
      count_checked base commit (join_errors (check_commit base) (check_commit commit))

  got_url : Try String → Try String
  got_url (err e) = err (wrap "git remote get-url" e)
  got_url (ok out) = ok out

  unfoldable pub remote_url : String → Try String
  unfolding got_url
  remote_url remote = got_url (git ("remote" ∷ "get-url" ∷ "--end-of-options" ∷ remote ∷ []))
