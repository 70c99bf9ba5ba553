-- ===== src/Sqllog/Report/Pdf/Bounds.antt =====
-- internal/sqllog/report.go: the table of ExportPDF, its texts and where its boxes end.
use anti_river_ten_demo.Prelude.{
  ℕ, ◌+◌, ◌≤◌, ◌≡◌, refl, sym, ap, ◌∙◌, ◌⊎◌, subst, List, [], ◌∷◌, ◌++◌, append_assoc, append-nil,
  map, ltb, inl, inr, Bool-cases, arith, All, All-append,
}
use anti_river_ten_demo.Strings.{Bytes, text}
use anti_river_ten_demo.Sqllog.Report.Analyze.{AnomalyDetail}
use anti_river_ten_demo.Sqllog.Report.Csv.{anomaly_row}
use anti_river_ten_demo.Sqllog.Report.Pdf.Drawing.{Canvas, CanvasLaws, Font, mm, for_each}
use anti_river_ten_demo.Sqllog.Report.Pdf.Table.{
  page_bottom, header_columns, anomaly_columns, row_height, draw_row, print_header, break_for,
  anomaly_line, room_for_header, anomaly_table,
}
use anti_river_ten_demo.Sqllog.Report.Pdf.Rows.{
  text_of, Inside, cell_boxes-Inside, draw_row-Adds, draw_row-get_y, draw_row-font,
}

abbrev pub header_font : Font
header_font = (text "Arial", text "B", 10)

abbrev pub body_font : Font
body_font = (text "Arial", [], 9)

abbrev pub header_texts : List Bytes
header_texts = map text_of header_columns

-- The texts of the table behind its header: the fields of each anomaly as in the CSV export, in
-- order, and sometimes the header in front of them.
unfoldable pub TableOf : List AnomalyDetail → List Bytes → Type 0
TableOf [] ts = ts ≡ []
TableOf (a ∷ as') ts =
    (rest : List Bytes) × TableOf as' rest
    × ((ts ≡ anomaly_row a ++ rest) ⊎ (ts ≡ header_texts ++ (anomaly_row a ++ rest)))

module _ (c : Canvas) (laws : CanvasLaws c) where
  open c use {Doc, set_font, set_xy, rect, multi_cell, get_x, get_y, add_page}
  open laws use {
    texts, boxes, top, page_writes, font_writes, multi_writes, xy_writes, rect_texts, rect_boxes,
    page_top, font_y, xy_y, font, font_font, rect_font, xy_font, multi_font,
  }

  -- The header, printed in its font, has at most 20 mm.
  abbrev pub HeaderFits : Type 0
  HeaderFits = (d : Doc) → font d ≡ header_font → row_height c header_columns d ≤ mm 20

  -- A row, printed in its font, fits on a page under such a header.
  abbrev pub RowFits : AnomalyDetail → Type 0
  RowFits a =
      (d : Doc)
      → font d ≡ body_font
      → top + mm 20 + row_height c (anomaly_columns a) d ≤ page_bottom

  module _ (header_fits : HeaderFits) (top_fits : top + mm 20 ≤ page_bottom) where
    -- The header, if it starts high enough: its texts, its boxes inside, and where it ends.
    record Headed (d d' : Doc) : Type 0 where
      headed_texts : texts d' ≡ texts d ++ header_texts
      headed_boxes : All Inside (boxes d) → All Inside (boxes d')
      headed_y : get_y d' ≤ get_y d + mm 20
      headed_font : font d' ≡ body_font

    print_header-Headed : (d : Doc) → get_y d + mm 20 ≤ page_bottom → Headed d (print_header c d)
    unfolding print_header
    print_header-Headed d high =
        let d1 = set_font (text "Arial") (text "B") 10 d in
        let f1 = font_writes (text "Arial") (text "B") 10 in
        let f2 = font_writes (text "Arial") [] 9 in
        let h = row_height c header_columns d1 in
        let (ts, bs) = draw_row-Adds c laws header_columns h d1 in
        let y1 = font_y (text "Arial") (text "B") 10 d in
        let y2 = draw_row-get_y c laws header_columns h d1 in
        let y3 = font_y (text "Arial") [] 9 (draw_row c header_columns h d1) in
        let fits = header_fits d1 (font_font _ _ _ d) in
        record {
          headed_texts =
              (f2.texts_of _ ∙ append-nil _)
              ∙ (ts ∙ ap (λ l. l ++ header_texts) (f1.texts_of d ∙ append-nil _));
          headed_boxes = λ inside. subst (All Inside) (sym (f2.boxes_of _ ∙ bs)) (
              All-append Inside _ _ (subst (All Inside) (sym (f1.boxes_of d)) inside)
                (cell_boxes-Inside (get_y d1) h header_columns (omega arith)));
          headed_y = omega arith;
          headed_font = font_font _ _ _ _;
        }

    -- The cursor and the boxes before a row of height h, on this page or the next.
    break_for-Inside :
        (h : ℕ) (d : Doc)
        → top + mm 20 + h ≤ page_bottom
        → All Inside (boxes d)
        → font d ≡ body_font
        → (get_y (break_for c h d) + h ≤ page_bottom)
          × All Inside (boxes (break_for c h d))
          × (font (break_for c h d) ≡ body_font)
          × ((texts (break_for c h d) ≡ texts d)
              ⊎ (texts (break_for c h d) ≡ texts d ++ header_texts))
    unfolding break_for
    break_for-Inside h d fits inside body = elim (Bool-cases (ltb page_bottom (get_y d + h))) [
      | inl e ↦
          let y = page_top d in
          let p = page_writes in
          let hd = print_header-Headed (add_page d) (omega arith) in
          rw e (
            omega (arith, hd.headed_y),
            hd.headed_boxes (subst (All Inside) (sym (p.boxes_of d)) inside),
            hd.headed_font,
            inr (hd.headed_texts ∙ ap (λ l. l ++ header_texts) (p.texts_of d ∙ append-nil _)),
          )
      | inr e ↦ rw e (ground (arith, e), inside, body, inl refl)
    ]

    -- A document whose boxes are inside, with the font of the rows.
    abbrev Body : Doc → Type 0
    Body d = All Inside (boxes d) × (font d ≡ body_font)

    anomaly_line-Body :
        (a : AnomalyDetail) (d : Doc)
        → RowFits a
        → Body d
        → Body (anomaly_line c a d)
          × ((texts (anomaly_line c a d) ≡ texts d ++ anomaly_row a)
              ⊎ (texts (anomaly_line c a d) ≡ texts d ++ (header_texts ++ anomaly_row a)))
    unfolding anomaly_line anomaly_row anomaly_columns
    anomaly_line-Body a d fits (inside, body) =
        let cols = anomaly_columns a in
        let h = row_height c cols d in
        let (low, inside', body', written) = break_for-Inside h d (fits d body) inside body in
        let d' = break_for c h d in
        let (ts, bs) = draw_row-Adds c laws cols h d' in
        (
          (
            subst (All Inside) (sym bs)
                (All-append Inside _ _ inside' (cell_boxes-Inside (get_y d') h cols low)),
            draw_row-font c laws cols h d' ∙ body',
          ),
          elim written [
            | inl e ↦ inl (ts ∙ ap (λ l. l ++ map text_of cols) e)
            | inr e ↦ inr (
                ts
                ∙ (ap (λ l. l ++ map text_of cols) e
                    ∙ append_assoc (texts d) header_texts (map text_of cols)))
          ],
        )

    lines-Body :
        (anomalies : List AnomalyDetail) (d : Doc)
        → All RowFits anomalies
        → Body d
        → All Inside (boxes (for_each (anomaly_line c) anomalies d))
          × ((ts : List Bytes) × TableOf anomalies ts
              × (texts (for_each (anomaly_line c) anomalies d) ≡ texts d ++ ts))
    unfolding for_each TableOf
    lines-Body [] d fits (inside, body) = (inside, ([], refl, sym (append-nil (texts d))))
    lines-Body (a ∷ anomalies) d (fit, fits) b =
        let (b', written) = anomaly_line-Body a d fit b in
        let (inside, (ts, table, e)) = lines-Body anomalies (anomaly_line c a d) fits b' in
        elim written [
          | inl w ↦ (
            inside,
            (
              anomaly_row a ++ ts,
              (ts, table, inl refl),
              e ∙ (ap (λ l. l ++ ts) w ∙ append_assoc (texts d) (anomaly_row a) ts),
            ),
          )
          | inr w ↦ (
            inside,
            (
              header_texts ++ (anomaly_row a ++ ts),
              (ts, table, inr refl),
              e ∙ (ap (λ l. l ++ ts) w ∙ simp append_assoc),
            ),
          )
        ]

    room-Body :
        (d : Doc)
        → All Inside (boxes d)
        → (get_y (room_for_header c d) + mm 20 ≤ page_bottom)
          × All Inside (boxes (room_for_header c d))
          × (texts (room_for_header c d) ≡ texts d)
    unfolding room_for_header
    room-Body d inside = elim (Bool-cases (ltb page_bottom (get_y d + mm 20))) [
      | inl e ↦
          let y = page_top d in
          let p = page_writes in
          rw e (
            omega arith,
            subst (All Inside) (sym (p.boxes_of d)) inside,
            p.texts_of d ∙ append-nil _,
          )
      | inr e ↦ rw e (ground (arith, e), inside, refl)
    ]

    pub anomaly_table-Body :
        (anomalies : List AnomalyDetail) (d : Doc)
        → All RowFits anomalies
        → All Inside (boxes d)
        → All Inside (boxes (anomaly_table c anomalies d))
          × ((ts : List Bytes) × TableOf anomalies ts
              × (texts (anomaly_table c anomalies d) ≡ texts d ++ (header_texts ++ ts)))
    unfolding anomaly_table
    anomaly_table-Body anomalies d fits inside =
        let f = font_writes (text "Arial") (text "B") 11 in
        let d1 = set_font (text "Arial") (text "B") 11 d in
        let (high, inside1, same) = room-Body d1 (subst (All Inside) (sym (f.boxes_of d)) inside) in
        let hd = print_header-Headed (room_for_header c d1) high in
        let (inside2, (ts, table, e)) =
          lines-Body anomalies (print_header c (room_for_header c d1)) fits
            (hd.headed_boxes inside1, hd.headed_font) in
        (
          inside2,
          (
            ts,
            table,
            e
                ∙ (ap (λ l. l ++ ts)
                      (hd.headed_texts
                        ∙ ap (λ l. l ++ header_texts) (same ∙ (f.texts_of d ∙ append-nil _)))
                    ∙ append_assoc (texts d) header_texts ts),
          ),
        )
