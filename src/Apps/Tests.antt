-- ===== src/Apps/Tests.antt =====
-- Examples of globs, `Exec` lines, URIs and the association file.
use xdg_desktop_portal_aegis.Prelude.{
  length, trim_start, trim_end, is_whitespace, strip_prefix, strip_suffix_char, split_once, split,
  join, text_eq, true, false, Option, some, List, [], ◌∷◌, ◌++◌, ◌≡◌, ◌⊎◌, Text, codes, arith, refl,
}
use xdg_desktop_portal_aegis.Apps.Glob.{glob_matches}
use xdg_desktop_portal_aegis.Apps.GlobLaws.{Globs, glob_matches_decides}
use xdg_desktop_portal_aegis.Apps.Uri.{
  Bytes, value, percent_decode_bytes, percent_encode, percent_decode-encode,
}
use xdg_desktop_portal_aegis.Apps.Exec.{expand_exec}
use xdg_desktop_portal_aegis.Apps.ExecLaws.{quote_all, expand_exec_plain}
use xdg_desktop_portal_aegis.Apps.Lines.{IsKey}
use xdg_desktop_portal_aegis.Apps.Desktop.{parse_grouped_lists, split_inclusive, header_of}
use xdg_desktop_portal_aegis.Apps.MimeApps.{
  update_default_applications, edit_lines, edit_line, finish_lines, target_value, new_value,
}
use xdg_desktop_portal_aegis.Apps.MimeAppsLaws.{IsListed, IsDefault}
use xdg_desktop_portal_aegis.Apps.MimeText.{update-parse_grouped_lists}

-- The lower case of these names, which are in lower case.
abbrev no_fold : Text → Text
no_fold s = s

glob_matches_decides_example :
    ((glob_matches no_fold (codes "*.tar.?z") (codes "a.tar.gz") false ≡ some true)
      × Globs (codes "*.tar.?z") (codes "a.tar.gz"))
    ⊎ ((glob_matches no_fold (codes "*.tar.?z") (codes "a.tar.gz") false ≡ some false)
        × (¬ Globs (codes "*.tar.?z") (codes "a.tar.gz")))
glob_matches_decides_example =
    glob_matches_decides no_fold (codes "*.tar.?z") (codes "a.tar.gz") false (omega arith)

percent_decode-encode_example :
    percent_decode_bytes (percent_encode (codes "/tmp/a b%")) ≡ value (codes "/tmp/a b%")
percent_decode-encode_example = percent_decode-encode (codes "/tmp/a b%") (omega arith)

abbrev arguments : List Text
arguments = codes "viewer" ∷ codes "a \"b\" $c" ∷ []

abbrev any_bytes : Bytes → Option Text
any_bytes bs = some bs

expand_exec_plain_example :
    expand_exec any_bytes (codes "file:///a" ∷ []) (quote_all arguments)
    ≡ value (arguments ++ codes "file:///a" ∷ [])
expand_exec_plain_example =
    expand_exec_plain any_bytes (codes "file:///a" ∷ []) arguments
      (((λ e. cc), omega arith), (((λ e. cc), omega arith), tt))

abbrev html : Text
html = codes "text/html"

abbrev browser : Text
browser = codes "web.desktop"

abbrev mimeapps : Text
mimeapps =
    codes "[Default Applications]\ntext/html=old.desktop;web.desktop;\n[Added Associations]\n"

html-IsKey : IsKey html
unfolding trim_start trim_end is_whitespace
html-IsKey = record {
  no_equals = refl;
  no_bracket = refl;
  trimmed = refl;
  filled = refl;
  no_comment = refl;
}

browser-IsListed : IsListed browser
unfolding trim_start trim_end is_whitespace
browser-IsListed = record { no_semicolon = refl; trimmed = refl; filled = refl }

-- The texts of the example are ASCII.
abbrev plain : Text → Text
plain t = t

edited_length : length (plain (update_default_applications html browser mimeapps)) ≡ 79
unfolding update_default_applications split_inclusive header_of strip_prefix trim_end
    strip_suffix_char is_whitespace text_eq trim_start split_once join split
edited_length = refl

update-parse_grouped_lists_example :
    IsDefault html browser
      (parse_grouped_lists plain (some (plain (update_default_applications html browser mimeapps))))
update-parse_grouped_lists_example =
    update-parse_grouped_lists html browser plain plain (λ t. refl) mimeapps refl html-IsKey
      browser-IsListed refl refl (omega (arith, edited_length))

-- The new default is put in front of the old one.
edited :
    update_default_applications html browser mimeapps
    ≡ codes "[Default Applications]\ntext/html=web.desktop;old.desktop;\n[Added Associations]\n"
unfolding update_default_applications split_inclusive edit_lines edit_line finish_lines target_value
    new_value header_of trim_start trim_end is_whitespace strip_prefix strip_suffix_char split_once
    split join text_eq
edited = refl

-- In a file whose last line is not ended, the new key is glued to that line.
glued :
    update_default_applications html browser (codes "[Default Applications]\na/b=c.desktop")
    ≡ codes "[Default Applications]\na/b=c.desktoptext/html=web.desktop;\n"
unfolding update_default_applications split_inclusive edit_lines edit_line finish_lines target_value
    new_value header_of trim_start trim_end is_whitespace strip_prefix strip_suffix_char split_once
    split join text_eq
glued = refl
