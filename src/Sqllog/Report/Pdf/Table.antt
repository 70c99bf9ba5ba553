-- ===== src/Sqllog/Report/Pdf/Table.antt =====
-- internal/sqllog/report.go: the table of the anomalies in ExportPDF.
use anti_river_ten_demo.Prelude.{ℕ, ◌+◌, ◌*◌, false, List, [], ◌∷◌, ltb, length, if◌then◌else◌}
use anti_river_ten_demo.Strings.{Bytes, text, join}
use anti_river_ten_demo.Strconv.{decimal_int}
use anti_river_ten_demo.Sqllog.Report.Analyze.{AnomalyDetail}
use anti_river_ten_demo.Sqllog.Report.Csv.{one_line}
use anti_river_ten_demo.Sqllog.Report.Pdf.Drawing.{Canvas, mm, for_each}

-- pageBottom, headerLineH and lineHeight.
abbrev pub page_bottom : ℕ
page_bottom = mm 287

abbrev pub line_height : ℕ
line_height = mm 5

-- A column: its width and a text.
abbrev pub Column : Type 0
Column = ℕ × Bytes

abbrev pub columns : Bytes → Bytes → Bytes → Bytes → Bytes → Bytes → List Column
columns db time count reasons suggestions sql =
    (mm 20, db)
    ∷ (mm 28, time)
    ∷ (mm 22, count)
    ∷ (mm 33, reasons)
    ∷ (mm 32, suggestions)
    ∷ (mm 55, sql)
    ∷ []

unfoldable pub header_columns : List Column
header_columns =
    columns (text "DB") (text "Exec Time (ms)") (text "Exec Count") (text "Reasons")
      (text "Suggestions") (text "SQL")

unfoldable pub anomaly_columns : AnomalyDetail → List Column
anomaly_columns a =
    columns a.db_name (decimal_int a.exec_time_ms) (decimal_int a.exec_count)
      (join a.reasons (text "|")) (join a.suggestions (text "|")) (one_line a.sql_query)

module _ (c : Canvas) where
  open c use {Doc, add_page, set_font, rect, set_xy, multi_cell, split_text, get_x, get_y}

  -- The loop that looks for the text with the most lines.
  unfoldable pub max_lines : Doc → ℕ → List Column → ℕ
  max_lines d most [] = most
  max_lines d most ((w, t) ∷ cols) =
      let l = length (split_text t w d) in max_lines d (if ltb most l then l else most) cols

  unfoldable pub row_height : List Column → Doc → ℕ
  unfolding max_lines
  row_height cols d = max_lines d 1 cols * line_height

  -- The loop that draws the boxes of a row with their texts.
  unfoldable pub draw_cells : ℕ → ℕ → ℕ → List Column → Doc → Doc
  draw_cells y h x [] d = d
  draw_cells y h x ((w, t) ∷ cols) d =
      let boxed = set_xy x y (rect x y w h [] d) in
      let written = multi_cell w line_height t [] (text "L") false boxed in
      draw_cells y h (x + w) cols (set_xy (x + w) y written)

  -- A row of this height, from the cursor on.
  unfoldable pub draw_row : List Column → ℕ → Doc → Doc
  unfolding draw_cells
  draw_row cols h d =
      let start_x = get_x d in
      let y = get_y d in set_xy start_x (y + h) (draw_cells y h start_x cols d)

  unfoldable pub print_header : Doc → Doc
  unfolding draw_row row_height header_columns
  print_header d =
      let d' = set_font (text "Arial") (text "B") 10 d in
      set_font (text "Arial") [] 9 (draw_row header_columns (row_height header_columns d') d')

  -- Page break if needed, with the header again.
  unfoldable pub break_for : ℕ → Doc → Doc
  unfolding print_header
  break_for h d = if ltb page_bottom (get_y d + h) then print_header (add_page d) else d

  unfoldable pub anomaly_line : AnomalyDetail → Doc → Doc
  unfolding break_for draw_row row_height anomaly_columns
  anomaly_line a d =
      let cols = anomaly_columns a in let h = row_height cols d in draw_row cols h (break_for h d)

  -- A new page if the cursor is too close to the bottom.
  unfoldable pub room_for_header : Doc → Doc
  room_for_header d = if ltb page_bottom (get_y d + mm 20) then add_page d else d

  unfoldable pub anomaly_table : List AnomalyDetail → Doc → Doc
  unfolding print_header anomaly_line room_for_header for_each
  anomaly_table anomalies d =
      let d1 = set_font (text "Arial") (text "B") 11 d in
      for_each anomaly_line anomalies (print_header (room_for_header d1))
