-- ===== src/Permission/Describe.antt =====
-- crates/core/src/permission.rs: what the approval dialog shows of a permission. A path is shown as
-- it is.
use ko_rkuma.Prelude.{String, [], ◌∷◌, ◌++◌}
use ko_rkuma.Domain.{Permission, PathScope}
use ko_rkuma.Editor.Rows.{Piece, Text}

abbrev pub scope_label : PathScope → Text
scope_label (PathScope.exact p) = Piece.text "exactly " ∷ Piece.text p ∷ []
scope_label (PathScope.prefix p) = Piece.text "under " ∷ Piece.text p ∷ []
scope_label PathScope.any = Piece.text "any path" ∷ []

abbrev pub labelled : String → Text → Text
labelled label scope = Piece.text label ∷ Piece.text " (" ∷ (scope ++ (Piece.text ")" ∷ []))

abbrev pub describe : Permission → Text
describe Permission.input_simulation = Piece.text "Input simulation" ∷ []
describe (Permission.file_read scope) = labelled "File read" (scope_label scope)
describe (Permission.file_write scope) = labelled "File write" (scope_label scope)
describe Permission.network = Piece.text "Network access" ∷ []
describe Permission.run_command = Piece.text "Run command" ∷ []
describe Permission.script_execution = Piece.text "Script execution" ∷ []
describe Permission.clipboard_read = Piece.text "Clipboard read" ∷ []
describe Permission.clipboard_write = Piece.text "Clipboard write" ∷ []
describe Permission.window_interaction = Piece.text "Background window interaction" ∷ []
describe Permission.browser_control = Piece.text "Browser control" ∷ []
describe Permission.foreground_takeover = Piece.text "Foreground takeover" ∷ []
