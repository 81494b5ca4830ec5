-- ===== src/TemplateRenderer.antt =====
-- app/template_renderer.py. Jinja2's sandboxed rendering is a parameter.
use early_warning_system.Prelude.{
  ℕ, Bool, true, false, Option, none, some, List, [], ◌∷◌, ◌++◌, Text, codes, map, concat, get, put,
  merge, keys, ◌==◌, nat_eq, text_eq, if◌then◌else◌, Result, ok, raise, ◌>>=◌,
}
use early_warning_system.Errors.{Error, template_render_error}

-- a value of a result row: `None`, or another value by its `str`
pub data Cell : Type 0 where
  null : Cell
  value : Text → Cell

unfoldable pub cell_text : Cell → Text
cell_text null = codes "None"
cell_text (value t) = t

abbrev pub Row : Type 0
Row = List (Text × Cell)

-- what a template can name
pub data ContextValue : Type 0 where
  text : Text → ContextValue
  number : ℕ → ContextValue
  row_list : List Row → ContextValue
  markup : Text → ContextValue
  cell : Cell → ContextValue

abbrev pub Context : Type 0
Context = List (Text × ContextValue)

pub data RenderFailure : Type 0 where
  template_error : Text → RenderFailure
  render_error : Error → RenderFailure

-- `environment.from_string(template).render(**context)`, by `autoescape`
abbrev pub Renderer : Type 0
Renderer = Bool → Text → Context → Result RenderFailure Text

pub record RenderedMessage : Type 0 where
  pub subject : Text
  pub html_body : Text

-- `_render`
unfoldable pub render : Renderer → Bool → Text → Context → Result Error Text
render jinja autoescape template context = elim (jinja autoescape template context) [
  | ok t ↦ ok t
  | raise (template_error m) ↦ raise (template_render_error m)
  | raise (render_error e) ↦ raise e
]

-- `html.escape`
unfoldable pub escape : Text → Text
escape [] = []
escape (c ∷ s) =
    (if c == b'&'
      then codes "&amp;"
      else if c == b'<'
      then codes "&lt;"
      else if c == b'>'
      then codes "&gt;"
      else if c == 34
      then codes "&quot;"
      else if c == 39
      then codes "&#x27;"
      else c ∷ [])
    ++ escape s

-- `str(row.get(column, ''))`
unfoldable pub shown_cell : Option Cell → Text
unfolding cell_text
shown_cell none = []
shown_cell (some c) = cell_text c

unfoldable pub table_cell : Row → Text → Text
unfolding escape shown_cell
table_cell row column =
    let shown = shown_cell (get column row) in codes "<td>" ++ (escape shown ++ codes "</td>")

unfoldable pub table_row : List Text → Row → Text
unfolding table_cell
table_row columns row = codes "<tr>" ++ (concat (map (table_cell row) columns) ++ codes "</tr>")

-- `_table`
unfoldable pub table : List Row → Text
unfolding table_row escape
table [] = codes "<table></table>"
table (first ∷ more) =
    let columns = keys first in
    let header = concat (map (λ c. codes "<th>" ++ (escape c ++ codes "</th>")) columns) in
    let body = concat (map (table_row columns) (first ∷ more)) in
    codes "<table><thead><tr>"
    ++ (header ++ (codes "</tr></thead><tbody>" ++ (body ++ codes "</tbody></table>")))

-- both parts, the subject first
unfoldable pub render_parts :
    Renderer → Text → Text → Context → Context → Result Error RenderedMessage
render_parts jinja subject_template body_template subject_context body_context = do
  subject ← render jinja false subject_template subject_context
  html_body ← render jinja true body_template body_context
  ok (record { subject = subject; html_body = html_body })

-- `render_summary`
unfoldable pub render_summary :
    Renderer → Text → Text → List Row → Context → Result Error RenderedMessage
render_summary jinja subject_template body_template rows context =
    render_parts jinja subject_template body_template context
      (put (codes "table") (markup (table rows)) context)

unfoldable pub row_context : Row → Context
row_context = map (λ p. (p.0, cell p.1))

-- `render_per_row`; a column named like an entry of the context wins
unfoldable pub render_per_row :
    Renderer → Text → Text → Row → Context → Result Error RenderedMessage
render_per_row jinja subject_template body_template row context =
    let merged = merge context (row_context row) in
    render_parts jinja subject_template body_template merged merged
