-- ===== src/Fleet/Warnings.antt =====
-- The warnings of internal/fleet/store.go, and how one is shown.
use kwt.Common.{
  Bool, ◌&&◌, ◌||◌, not, List, [], ◌∷◌, ◌++◌, Text, codes, if◌then◌else◌, ◌=?◌, trim_space,
  text_ltb, sort_by,
}
use kwt.Fleet.Types.{Warning, Manifest}

unfoldable pub warning_comes_before : Warning → Warning → Bool
unfolding ◌=?◌ text_ltb
warning_comes_before v w =
    if not (v.code =? w.code)
    then text_ltb v.code w.code
    else if not (v.about =? w.about)
    then text_ltb v.about w.about
    else text_ltb v.message w.message

-- Warnings that come before in neither order are the same, so that any sort gives this one.
unfoldable pub sort_warnings : List Warning → List Warning
unfolding sort_by warning_comes_before
sort_warnings warnings = sort_by warning_comes_before warnings

unfoldable pub same_subject : Warning → Warning → Bool
unfolding ◌=?◌
same_subject v w = (v.code =? w.code) && (v.about =? w.about)

-- Replaces the first warning with the code and the host, or appends.
unfoldable pub replace_warning : List Warning → Warning → List Warning
unfolding same_subject
replace_warning [] warning = warning ∷ []
replace_warning (w ∷ warnings) warning =
    if same_subject w warning then warning ∷ warnings else w ∷ replace_warning warnings warning

unfoldable pub upsert_warning : List Warning → Warning → List Warning
unfolding sort_warnings replace_warning
upsert_warning warnings warning = sort_warnings (replace_warning warnings warning)

-- The warnings of `Delete`, without those of a host.
unfoldable pub warnings_without : Text → List Warning → List Warning
unfolding ◌=?◌
warnings_without host_id [] = []
warnings_without host_id (w ∷ warnings) =
    if w.about =? host_id
    then warnings_without host_id warnings
    else w ∷ warnings_without host_id warnings

unfoldable pub host_info_changed : Manifest → Manifest → Bool
unfolding ◌=?◌
host_info_changed left right =
    not (left.host.hostname =? right.host.hostname)
    || not (left.host.platform =? right.host.platform)

-- `fmt.Sprintf` with `%q`, which is `strconv.Quote`.
unfoldable pub collision_warning : (Text → Text) → Manifest → Manifest → Warning
collision_warning quote existing manifest = record {
  code = codes "host_id_collision";
  about = manifest.host_id;
  message =
      codes "host ID "
      ++ (quote manifest.host_id
          ++ (codes " changed host identity from "
              ++ (quote existing.host.hostname
                  ++ b'/'
                    ∷ (quote existing.host.platform
                        ++ (codes " to "
                            ++ (quote manifest.host.hostname
                                ++ b'/' ∷ quote manifest.host.platform))))));
}

-- `Warning.String`.
unfoldable pub show_warning : Warning → Text
unfolding trim_space ◌=?◌
show_warning w =
    let text = if trim_space w.message =? [] then w.code else trim_space w.message in
    if trim_space w.about =? []
    then text
    else text ++ codes " (host " ++ trim_space w.about ++ codes ")"
