-- ===== src/Sqllog/Report/Pdf/Rows.antt =====
-- internal/sqllog/report.go: what drawing the cells of one row of ExportPDF writes, and where.
use anti_river_ten_demo.Prelude.{
  ℕ, ◌+◌, ◌≤◌, ◌≡◌, refl, sym, ap, ◌∙◌, false, List, [], ◌∷◌, ◌++◌, append_assoc, append-nil, map,
  All,
}
use anti_river_ten_demo.Strings.{Bytes, text}
use anti_river_ten_demo.Sqllog.Report.Pdf.Drawing.{Canvas, CanvasLaws, Box}
use anti_river_ten_demo.Sqllog.Report.Pdf.Table.{
  page_bottom, line_height, Column, draw_cells, draw_row,
}

abbrev pub text_of : Column → Bytes
text_of (w, t) = t

-- A box that ends above the bottom of the page.
abbrev pub Inside : Box → Type 0
Inside (y, h) = y + h ≤ page_bottom

pub cell_boxes : ℕ → ℕ → List Column → List Box
cell_boxes y h [] = []
cell_boxes y h (col ∷ cols) = (y, h) ∷ cell_boxes y h cols

pub cell_boxes-Inside :
    (y h : ℕ) (cols : List Column) → y + h ≤ page_bottom → All Inside (cell_boxes y h cols)
unfolding cell_boxes
cell_boxes-Inside y h [] k = tt
cell_boxes-Inside y h (col ∷ cols) k = (k, cell_boxes-Inside y h cols k)

module _ (c : Canvas) (laws : CanvasLaws c) where
  open c use {Doc, set_font, set_xy, rect, multi_cell, get_x, get_y, add_page}
  open laws use {
    texts, boxes, top, page_writes, font_writes, multi_writes, xy_writes, rect_texts, rect_boxes,
    page_top, font_y, xy_y, font, font_font, rect_font, xy_font, multi_font,
  }

  -- A part of the table: what it writes, and that its boxes are inside if it starts high enough.
  abbrev pub Adds : Doc → Doc → List Bytes → List Box → Type 0
  Adds d d' ts bs = (texts d' ≡ texts d ++ ts) × (boxes d' ≡ boxes d ++ bs)

  draw_cells-Adds :
      (y h x : ℕ) (cols : List Column) (d : Doc)
      → Adds d (draw_cells c y h x cols d) (map text_of cols) (cell_boxes y h cols)
  unfolding draw_cells cell_boxes
  draw_cells-Adds y h x [] d = (sym (append-nil (texts d)), sym (append-nil (boxes d)))
  draw_cells-Adds y h x ((w, t) ∷ cols) d =
      let boxed = rect x y w h [] d in
      let moved = set_xy x y boxed in
      let written = multi_cell w line_height t [] (text "L") false moved in
      let (ts, bs) = draw_cells-Adds y h (x + w) cols (set_xy (x + w) y written) in
      let wt = multi_writes w line_height t [] (text "L") false in
      let m1 = xy_writes x y in
      let m2 = xy_writes (x + w) y in
      let ets : texts (set_xy (x + w) y written) ≡ texts d ++ t ∷ [] =
        simp (m2.texts_of, wt.texts_of, m1.texts_of, rect_texts, append-nil) in
      let ebs : boxes (set_xy (x + w) y written) ≡ boxes d ++ (y, h) ∷ [] =
        simp (m2.boxes_of, wt.boxes_of, m1.boxes_of, rect_boxes) in
      (
        ts ∙ (ap (λ l. l ++ map text_of cols) ets ∙ append_assoc (texts d) (t ∷ []) _),
        bs ∙ (ap (λ l. l ++ cell_boxes y h cols) ebs ∙ append_assoc (boxes d) ((y, h) ∷ []) _),
      )

  pub draw_row-Adds :
      (cols : List Column) (h : ℕ) (d : Doc)
      → Adds d (draw_row c cols h d) (map text_of cols) (cell_boxes (get_y d) h cols)
  unfolding draw_row
  draw_row-Adds cols h d =
      let (ts, bs) = draw_cells-Adds (get_y d) h (get_x d) cols d in
      let m = xy_writes (get_x d) (get_y d + h) in
      ((m.texts_of _ ∙ append-nil _) ∙ ts, m.boxes_of _ ∙ bs)

  pub draw_row-get_y :
      (cols : List Column) (h : ℕ) (d : Doc) → get_y (draw_row c cols h d) ≡ get_y d + h
  unfolding draw_row
  draw_row-get_y cols h d = xy_y (get_x d) (get_y d + h) _

  draw_cells-font :
      (y h x : ℕ) (cols : List Column) (d : Doc) → font (draw_cells c y h x cols d) ≡ font d
  unfolding draw_cells
  draw_cells-font y h x [] d = refl
  draw_cells-font y h x ((w, t) ∷ cols) d =
      draw_cells-font y h (x + w) cols _ ∙ simp (xy_font, multi_font, rect_font)

  pub draw_row-font : (cols : List Column) (h : ℕ) (d : Doc) → font (draw_row c cols h d) ≡ font d
  unfolding draw_row
  draw_row-font cols h d = xy_font _ _ _ ∙ draw_cells-font (get_y d) h (get_x d) cols d
