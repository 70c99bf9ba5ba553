-- ===== src/Tests/Pdf.antt =====
-- The properties of the PDF export at concrete inputs: a document that records what is written on
-- it, and on which every text has three lines.
use anti_river_ten_demo.Prelude.{ℕ, ◌+◌, refl, sym, List, [], ◌∷◌, ◌++◌, append-nil, arith}
use anti_river_ten_demo.Prelude.Int.{pos}
use anti_river_ten_demo.Strings.{Bytes, text}
use anti_river_ten_demo.Exec.{ok}
use anti_river_ten_demo.Sqllog.Report.Analyze.{AnomalyDetail, ReportData}
use anti_river_ten_demo.Sqllog.Report.Pdf.{document}
use anti_river_ten_demo.Sqllog.Report.Pdf.Bounds.{HeaderFits, RowFits}
use anti_river_ten_demo.Sqllog.Report.Pdf.Drawing.{Canvas, CanvasLaws, Font, Box, mm}
use anti_river_ten_demo.Sqllog.Report.Pdf.Drawn.{DrawnReport, document-DrawnReport}
use anti_river_ten_demo.Sqllog.Report.Pdf.Table.{
  row_height, max_lines, header_columns, anomaly_columns,
}
use anti_river_ten_demo.Tests.Reports.{whole_numbers}

pub record Paper : Type 0 where
  pub said : List Bytes
  pub boxed : List Box
  pub style : Font
  pub height : ℕ

abbrev pub say : Bytes → Paper → Paper
say t p = record p { said = p.said ++ t ∷ [] }

abbrev pub paper : Canvas
paper = record {
  Doc = Paper;
  create = λ o u s f. record { said = []; boxed = []; style = ([], [], 0); height = 0 };
  set_title = λ t utf p. p;
  add_page = λ p. record p { height = mm 10 };
  set_font = λ family style size p. record p { style = (family, style, size) };
  cell = λ w h t p. say t p;
  ln = λ h p. record p { height = p.height + h };
  cell_format = λ w h t border ln align fill link url p. say t p;
  rect = λ x y w h style p. record p { boxed = p.boxed ++ (y, h) ∷ [] };
  set_xy = λ x y p. record p { height = y };
  multi_cell = λ w h t border align fill p. say t p;
  split_text = λ t w p. t ∷ t ∷ t ∷ [];
  get_x = λ p. mm 10;
  get_y = λ p. p.height;
  output = λ p. ok [];
}

paper_laws : CanvasLaws paper
paper_laws = record {
  texts = λ p. p.said;
  boxes = λ p. p.boxed;
  font = λ p. p.style;
  top = mm 10;
  create_texts = λ o u s f. refl;
  create_boxes = λ o u s f. refl;
  title_writes = λ t utf. record { texts_of = λ p. sym (append-nil _); boxes_of = λ p. refl };
  page_writes = record { texts_of = λ p. sym (append-nil _); boxes_of = λ p. refl };
  font_writes =
      λ family style size. record { texts_of = λ p. sym (append-nil _); boxes_of = λ p. refl };
  cell_writes = λ w h t. record { texts_of = λ p. refl; boxes_of = λ p. refl };
  ln_writes = λ h. record { texts_of = λ p. sym (append-nil _); boxes_of = λ p. refl };
  format_writes =
      λ w h t border ln align fill link url. record { texts_of = λ p. refl; boxes_of = λ p. refl };
  multi_writes = λ w h t border align fill. record { texts_of = λ p. refl; boxes_of = λ p. refl };
  xy_writes = λ x y. record { texts_of = λ p. sym (append-nil _); boxes_of = λ p. refl };
  rect_texts = λ x y w h style p. refl;
  rect_boxes = λ x y w h style p. refl;
  page_top = λ p. refl;
  font_y = λ family style size p. refl;
  font_font = λ family style size p. refl;
  rect_font = λ x y w h style p. refl;
  xy_font = λ x y p. refl;
  multi_font = λ w h t border align fill p. refl;
  xy_y = λ x y p. refl;
}

abbrev slow_scan : AnomalyDetail
slow_scan = record {
  db_name = text "shop";
  sql_query = text "SELECT * FROM orders";
  exec_time_ms = pos 900;
  exec_count = pos 200;
  reasons = text "slow" ∷ [];
  suggestions = [];
}

abbrev one_anomaly : ReportData whole_numbers
one_anomaly = record {
  generated_at = 0;
  timezone = text "UTC";
  summary = record {
    total_queries = 2;
    anomaly_count = 1;
    suggestion_count = 0;
    counts_by_db = (text "shop", pos 2) ∷ [];
    from = 0;
    to = 1;
  };
  anomalies = slow_scan ∷ slow_scan ∷ [];
  percentiles_overall = record { exec_time = (text "p50", pos 900) ∷ []; exec_count = [] };
  percentiles_by_db = [];
  top_patterns_overall = record { pattern = text "select"; occurrences = pos 2 } ∷ [];
  top_patterns_by_db = [];
}

three_lines : HeaderFits paper paper_laws
unfolding row_height max_lines header_columns
three_lines d f = omega arith

row_of_three : RowFits paper paper_laws slow_scan
unfolding row_height max_lines paper_laws anomaly_columns
row_of_three d f = omega arith

document-DrawnReport_example :
    DrawnReport paper paper_laws whole_numbers
      (λ t. text "time")
      one_anomaly
      (document paper whole_numbers (λ t. text "time") one_anomaly)
unfolding paper_laws
document-DrawnReport_example =
    document-DrawnReport paper paper_laws whole_numbers (λ t. text "time") one_anomaly three_lines
      (omega arith) (row_of_three, (row_of_three, tt))
