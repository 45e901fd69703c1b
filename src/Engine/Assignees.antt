-- ===== src/Engine/Assignees.antt =====
-- internal/engine/vars.go and the resolution of assignees in assignee_sync.go.
use lowcode_bpmn.Prelude.{String, string_eq, not, none, some, List, [], ◌∷◌, if◌then◌else◌}
use lowcode_bpmn.Text.{is_empty}
use lowcode_bpmn.Vars.{Vars, str, resolve_path, to_string_slice, put}
use lowcode_bpmn.Definition.Model.{Element}
use lowcode_bpmn.Runtime.{ActivityInstance}

pub data AssigneeSource : Type 0 where
  variable definition : AssigneeSource

unfoldable pub source_name : AssigneeSource → String
source_name variable = "variable"
source_name definition = "definition"

unfoldable pub assignees_from_variable : Vars → String → List String
unfolding resolve_path to_string_slice
assignees_from_variable vars path = elim (resolve_path vars path) [
  | none ↦ []
  | some v ↦ to_string_slice v
]

-- The definition's list, where the variable gives none.
abbrev or_definition : List String → List String → List String × AssigneeSource
or_definition [] defined = (defined, definition)
or_definition (a ∷ list) defined = (a ∷ list, variable)

unfoldable pub resolve_task_assignees : Element → Vars → List String × AssigneeSource
unfolding assignees_from_variable
resolve_task_assignees el vars =
    if not (is_empty el.assignees_variable)
    then or_definition (assignees_from_variable vars el.assignees_variable) el.assignees
    else (el.assignees, definition)

-- stampAssigneeSyncMeta, as the activation calls it: with no operator.
unfoldable pub stamp_assignee_sync_meta : ActivityInstance → AssigneeSource → ActivityInstance
unfolding put source_name
stamp_assignee_sync_meta act source = record act {
  input = put "assignee_source" (str (source_name source)) act.input;
}
