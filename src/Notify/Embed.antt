-- ===== src/Notify/Embed.antt =====
-- internal/notify/discord.go: the embed that a report or an alert is shown as.
pub mod Within
use text.Mathlib.Text.{is_char_boundary}
use compose_lock.Prelude.{
  ℕ, zero, suc, ◌+◌, ◌-◌, ◌%◌, String, ◌<>◌, len, slice, Bool, true, false, ◌||◌, Option, none,
  some, List, [], ◌∷◌, ◌++◌, ltb, leb, beq, ◌==◌, join, map, show, length, if◌then◌else◌,
}
use compose_lock.Errors.{Err, message}
use compose_lock.Reconcile.{Severity, Report, success, failure, recovered, dry}

-- The methods of `Outcome`.
unfoldable pub color : Severity → ℕ
color success = 0x00ff00
color recovered = 0xff8800
color dry = 0xffff00
color failure = 0xff0000

unfoldable pub icon : Severity → String
icon success = "✅"
icon recovered = "⚠\u{fe0f}"
icon dry = "🔍"
icon failure = "❌"

-- The outcome as the string that it is.
unfoldable pub outcome_text : Severity → String
outcome_text success = "success"
outcome_text failure = "failure"
outcome_text recovered = "recovered"
outcome_text dry = "dry_run"

pub record Field : Type 0 where
  pub name : String
  pub value : String
  pub inline : Bool

pub record Embed : Type 0 where
  pub heading : String
  pub description : String
  pub color : ℕ
  pub fields : List Field
  pub outcome : Severity
  pub title : String
  pub commit : String
  pub message : String
  pub commit_url : String
  pub compare_url : String

abbrev pub max_error_field_len : ℕ
max_error_field_len = 500

abbrev pub max_field_value_len : ℕ
max_field_value_len = 1024

abbrev pub max_title_len : ℕ
max_title_len = 256

abbrev pub max_fields : ℕ
max_fields = 25

abbrev pub ellipsis : String
ellipsis = "…"

-- The loop of `truncate`: back to where a character begins.
unfoldable pub retreat : String → ℕ → ℕ
retreat s zero = 0
retreat s (suc n) = let back = retreat s n in if is_char_boundary s (suc n) then suc n else back

unfoldable pub truncate : String → ℕ → String
truncate s n = if leb (len s) n then s else slice s 0 (retreat s (n - len ellipsis)) <> ellipsis

unfoldable pub or_dash : String → String
or_dash s = if s == "" then "-" else s

unfoldable pub short_hash : String → String
short_hash id = if ltb 7 (len id) then slice id 0 7 else id

-- `time.Duration.Round`, half up.
unfoldable pub round : ℕ → ℕ → ℕ
round d m = let r = d % m in if ltb (r + r) m then d - r else d - r + m

abbrev pub millisecond : ℕ
millisecond = 1000000

abbrev pub second : ℕ
second = 1000000000

-- What `BuildEmbed` reads: the report with the fields that only this package looks at.
pub record Shown : Type 0 where
  pub report : Report
  pub repo_url : String
  pub duration : ℕ
  pub stderr_tail : String

pub record Alert : Type 0 where
  pub stack : String
  pub commit : String
  pub branch : String
  pub problem : String
  pub unhealthy_for : ℕ

abbrev inline_field : String → String → Field
inline_field name value = record { name = name; value = value; inline = true }

abbrev long_field : String → String → Field
long_field name value = record { name = name; value = value; inline = false }

-- A list that is shown only where it holds something.
unfoldable pub listed : String → List String → List Field
listed name [] = []
listed name (x ∷ xs) = inline_field name (join ", " (x ∷ xs)) ∷ []

joined_or : String → List String → String
joined_or other [] = other
joined_or other (x ∷ xs) = join ", " (x ∷ xs)

error_field : Option Err → List Field
error_field none = []
error_field (some e) = long_field "Error" (truncate (message e) max_error_field_len) ∷ []

commit_value : Shown → String
commit_value s =
    let short = short_hash s.report.commit in
    if s.repo_url == "" || short == ""
    then short
    else "[" <> (short <> ("](" <> (s.repo_url <> ("/commit/" <> (s.report.commit <> ")")))))

take : ℕ → List Field → List Field
take zero fs = []
take (suc n) [] = []
take (suc n) (f ∷ fs) = f ∷ take n fs

-- The loop that keeps each field within Discord's limits.
unfoldable pub fit_field : Field → Field
fit_field f = record f {
  name = truncate f.name max_field_value_len;
  value = or_dash (truncate f.value max_field_value_len);
}

unfoldable pub fit_fields : List Field → List Field
unfolding take
fit_fields fs = map fit_field (if ltb max_fields (length fs) then take max_fields fs else fs)

-- `show_duration` is `time.Duration.String`.
module _ (show_duration : ℕ → String) where
  unfoldable pub format_duration : ℕ → String
  format_duration d = show_duration (round d (if ltb d second then millisecond else second))

  unfoldable pub report_fields : Shown → List Field
  unfolding listed joined_or error_field commit_value
  report_fields s =
      inline_field "Commit" (or_dash (commit_value s))
      ∷ inline_field "Branch" (or_dash s.report.branch)
      ∷ inline_field "Services" (joined_or "all" s.report.services)
      ∷ ((if s.report.updated_known
            then inline_field "Updated" (joined_or "none" s.report.updated) ∷ []
            else [])
          ++ (listed "Restarted" s.report.restarted
              ++ (listed "Stacks" s.report.stacks
                  ++ ((if ltb 0 s.report.health_watch
                        then inline_field "Health Watch" (
                            show_duration s.report.health_watch
                            <> (" (" <> (outcome_text s.report.outcome <> ")")))
                          ∷ []
                        else [])
                      ++ (inline_field "Duration" (format_duration s.duration)
                          ∷ (error_field s.report.error
                              ++ (if s.stderr_tail == ""
                                  then []
                                  else long_field "Stderr"
                                      (truncate s.stderr_tail max_error_field_len)
                                    ∷ [])))))))

  unfoldable pub build_embed : Shown → Embed
  build_embed s = record {
    heading =
        truncate
          (icon s.report.outcome <> (if s.report.title == "" then "" else " " <> s.report.title))
          max_title_len;
    description = "";
    color = color s.report.outcome;
    fields = fit_fields (report_fields s);
    outcome = s.report.outcome;
    title = s.report.title;
    commit = s.report.commit;
    message = "";
    commit_url = "";
    compare_url = "";
  }

  unfoldable pub build_alert_embed : Alert → Embed
  build_alert_embed a = record {
    heading = truncate (icon failure <> (" Stack unhealthy: " <> a.stack)) max_title_len;
    description = "";
    color = color failure;
    fields =
        inline_field "Stack" (or_dash (truncate a.stack max_field_value_len))
        ∷ inline_field "Commit" (or_dash (short_hash a.commit))
        ∷ inline_field "Branch" (or_dash (truncate a.branch max_field_value_len))
        ∷ inline_field "Unhealthy for" (format_duration a.unhealthy_for)
        ∷ long_field "Problem" (or_dash (truncate a.problem max_error_field_len))
        ∷ [];
    outcome = failure;
    title = "Stack unhealthy: " <> a.stack;
    commit = a.commit;
    message = "";
    commit_url = "";
    compare_url = "";
  }
