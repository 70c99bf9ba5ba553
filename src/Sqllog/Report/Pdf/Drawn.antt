-- ===== src/Sqllog/Report/Pdf/Drawn.antt =====
-- internal/sqllog/report.go: the whole document of ExportPDF.
use anti_river_ten_demo.Prelude.{
  ℕ, ◌+◌, ◌≤◌, ◌≡◌, ap, ◌∙◌, sym, subst, List, [], ◌++◌, append-nil, All,
}
use anti_river_ten_demo.Strings.{Bytes}
use anti_river_ten_demo.Sqllog.Report.Analyze.{ReportData}
use anti_river_ten_demo.Sqllog.Report.Pdf.{front, document, blank}
use anti_river_ten_demo.Sqllog.Report.Pdf.Bounds.{
  header_texts, TableOf, HeaderFits, RowFits, anomaly_table-Body,
}
use anti_river_ten_demo.Sqllog.Report.Pdf.Drawing.{Canvas, CanvasLaws, mm}
use anti_river_ten_demo.Sqllog.Report.Pdf.Front.{front-Writes}
use anti_river_ten_demo.Sqllog.Report.Pdf.Rows.{Inside}
use anti_river_ten_demo.Sqllog.Report.Pdf.Table.{page_bottom}
use anti_river_ten_demo.Sqllog.Report.Pdf.Texts.{front_texts}
use anti_river_ten_demo.Sqllog.Stats.{Floats}

module _ (c : Canvas) (laws : CanvasLaws c) (x : Floats) (rfc3339 : ℕ → Bytes) where
  open c use {Doc}
  open laws use {texts, boxes, top}

  -- The texts are those of the sections and then a table of all anomalies, and every box ends
  -- above the bottom of its page.
  abbrev pub DrawnReport : ReportData x → Doc → Type 0
  DrawnReport r d =
      All Inside (boxes d)
      × ((ts : List Bytes) × TableOf r.anomalies ts
          × (texts d ≡ front_texts x rfc3339 r ++ (header_texts ++ ts)))

  front_texts-blank :
      (r : ReportData x) → texts (front c x rfc3339 r (blank c x rfc3339)) ≡ front_texts x rfc3339 r
  front_texts-blank r =
      let page = laws.page_writes in
      let title = laws.title_writes _ _ in
      let w = front-Writes c laws x rfc3339 r in
      w.texts_of _
      ∙ ap (λ l. l ++ front_texts x rfc3339 r)
          (page.texts_of _
            ∙ (append-nil _ ∙ (title.texts_of _ ∙ (append-nil _ ∙ laws.create_texts _ _ _ _))))

  front_boxes-blank : (r : ReportData x) → boxes (front c x rfc3339 r (blank c x rfc3339)) ≡ []
  front_boxes-blank r =
      let page = laws.page_writes in
      let title = laws.title_writes _ _ in
      let w = front-Writes c laws x rfc3339 r in
      w.boxes_of _ ∙ (page.boxes_of _ ∙ (title.boxes_of _ ∙ laws.create_boxes _ _ _ _))

  -- If the calls keep their laws, the header of the table has at most 20 mm, and each row fits
  -- under it on a new page, then the document of ExportPDF has the texts of all sections of the
  -- report, in order, then the header and for each anomaly the six fields that the CSV export has,
  -- in order and nothing else but repeated headers; and every box ends above the bottom of its page.
  pub document-DrawnReport :
      (r : ReportData x)
      → HeaderFits c laws
      → top + mm 20 ≤ page_bottom
      → All (RowFits c laws) r.anomalies
      → DrawnReport r (document c x rfc3339 r)
  unfolding document
  document-DrawnReport r header_fits top_fits fits =
      let (inside, (ts, table, e)) =
        anomaly_table-Body c laws header_fits top_fits r.anomalies
          (front c x rfc3339 r (blank c x rfc3339)) fits
          (subst (All Inside) (sym (front_boxes-blank r)) tt) in
      (inside, (ts, table, e ∙ ap (λ l. l ++ (header_texts ++ ts)) (front_texts-blank r)))
