-- ===== src/Sqllog/Report/Pdf/Front.antt =====
-- internal/sqllog/report.go: what ExportPDF writes in front of the table of the anomalies.
use anti_river_ten_demo.Prelude.{
  ℕ, ◌+◌, refl, sym, ap, ◌∙◌, Bool, true, false, List, [], ◌∷◌, ◌++◌, append_assoc, subst,
  append-nil, ltb, if◌then◌else◌, inl, inr, Bool-cases,
}
use anti_river_ten_demo.Prelude.Int.{ℤ}
use anti_river_ten_demo.Strings.{Bytes, text}
use anti_river_ten_demo.Sqllog.Report.Analyze.{ReportSummary, ReportData}
use anti_river_ten_demo.Sqllog.Report.Csv.{has_any}
use anti_river_ten_demo.Sqllog.Report.Pdf.{
  arial, bold, left, right, text_line, ensure_space, heading, pattern_line, pattern_table,
  overall_patterns, db_patterns, db_patterns_section, db_count, counts_section, summary_section,
  overall_section, overall_percentiles, db_percentiles, db_percentiles_section, front,
}
use anti_river_ten_demo.Sqllog.Report.Pdf.Drawing.{Canvas, CanvasLaws, Writes, mm, draw, for_each}
use anti_river_ten_demo.Sqllog.Report.Pdf.Table.{page_bottom}
use anti_river_ten_demo.Sqllog.Stats.{Floats, PatternStat, Percentiles}
use anti_river_ten_demo.Sqllog.Report.Pdf.Texts.{
  all_of, pattern_texts, table_texts, overall_pattern_texts, db_pattern_texts, patterns_by_db_texts,
  count_texts, counts_texts, summary_texts, overall_section_texts, overall_percentile_texts,
  db_percentile_texts, percentiles_by_db_texts, front_texts,
}

module _ (c : Canvas) (laws : CanvasLaws c) where
  open c use {Doc, get_y, add_page}
  open laws use {texts, boxes, page_writes, font_writes, cell_writes, ln_writes, format_writes}

  abbrev W : (Doc → Doc) → List Bytes → Type 0
  W f ts = Writes c texts boxes f ts

  nothing : W (λ d. d) []
  nothing = record { texts_of = λ d. sym (append-nil (texts d)); boxes_of = λ d. refl }

  behind : {f g : Doc → Doc} {ts us : List Bytes} → W f ts → W g us → W (λ d. g (f d)) (ts ++ us)
  behind {f = f} {g = g} {ts = ts} {us = us} p q = record {
    texts_of =
        λ d. q.texts_of (f d) ∙ (ap (λ l. l ++ us) (p.texts_of d) ∙ append_assoc (texts d) ts us);
    boxes_of = λ d. q.boxes_of (f d) ∙ p.boxes_of d;
  }

  -- What a block of calls writes, call by call.
  data Drawn : List (Doc → Doc) → List Bytes → Type 0 where
    ended : Drawn [] []
    silent :
        {f : Doc → Doc} {fs : List (Doc → Doc)} {us : List Bytes}
        → W f []
        → Drawn fs us
        → Drawn (f ∷ fs) us
    said :
        {f : Doc → Doc} {fs : List (Doc → Doc)} {t : Bytes} {us : List Bytes}
        → W f (t ∷ [])
        → Drawn fs us
        → Drawn (f ∷ fs) (t ∷ us)
    joined :
        {f : Doc → Doc} {fs : List (Doc → Doc)} {ts us : List Bytes}
        → W f ts
        → Drawn fs us
        → Drawn (f ∷ fs) (ts ++ us)
    last : {f : Doc → Doc} {ts : List Bytes} → W f ts → Drawn (f ∷ []) ts
    closing : {f g : Doc → Doc} {ts : List Bytes} → W f ts → W g [] → Drawn (f ∷ g ∷ []) ts

  draw-Writes : {fs : List (Doc → Doc)} {ts : List Bytes} → Drawn fs ts → W (draw fs) ts
  unfolding draw
  draw-Writes ended = nothing
  draw-Writes (silent p q) = behind p (draw-Writes q)
  draw-Writes (said p q) = behind p (draw-Writes q)
  draw-Writes (joined p q) = behind p (draw-Writes q)
  draw-Writes (closing {ts = ts} p q) = subst (W _) (append-nil ts) (behind p q)
  draw-Writes (last p) = record { texts_of = p.texts_of; boxes_of = p.boxes_of }

  for_each-Writes :
      {A : Type 0} {f : A → Doc → Doc} {g : A → List Bytes}
      → ((a : A) → W (f a) (g a))
      → (as' : List A) → W (for_each f as') (all_of g as')
  unfolding for_each all_of
  for_each-Writes each [] = nothing
  for_each-Writes each (a ∷ as') = behind (each a) (for_each-Writes each as')

  when-Writes :
      {f : Doc → Doc} {ts : List Bytes} (b : Bool)
      → W f ts
      → W (λ d. if b then f d else d) (if b then ts else [])
  when-Writes true p = p
  when-Writes false p = nothing

  font : (style : Bytes) (size : ℕ) → W (arial c style size) []
  font style size = font_writes (text "Arial") style size

  text_line-Writes : (t : Bytes) → W (text_line c t) (t ∷ [])
  text_line-Writes t = cell_writes 0 (mm 6) t

  left-Writes : (w : ℕ) (t : Bytes) → W (left c w t) (t ∷ [])
  left-Writes w t = format_writes w (mm 6) t (text "0") 0 [] false 0 []

  right-Writes : (t : Bytes) → W (right c t) (t ∷ [])
  right-Writes t = format_writes 0 (mm 6) t (text "0") 1 [] false 0 []

  heading-Writes : (t : Bytes) → W (heading c t) (t ∷ [])
  heading-Writes t = behind (font (bold c) 12) (behind (text_line-Writes t) (ln_writes (mm 7)))

  ensure_space-Writes : (h : ℕ) → W (ensure_space c h) []
  unfolding ensure_space
  ensure_space-Writes h = record {
    texts_of = λ d. elim (Bool-cases (ltb page_bottom (get_y d + h))) [
      | inl e ↦ rw e (page_writes.texts_of d)
      | inr e ↦ rw e (sym (append-nil (texts d)))
    ];
    boxes_of = λ d. elim (Bool-cases (ltb page_bottom (get_y d + h))) [
      | inl e ↦ rw e (page_writes.boxes_of d)
      | inr e ↦ rw e refl
    ];
  }

  pattern_line-Writes : (p : PatternStat) → W (pattern_line c p) (pattern_texts p)
  unfolding pattern_line
  pattern_line-Writes p = draw-Writes (
      silent (ensure_space-Writes (mm 6))
        (said (left-Writes (mm 140) _) (said (right-Writes _) ended)))

  pattern_table-Writes : (ps : List PatternStat) → W (pattern_table c ps) (table_texts ps)
  unfolding pattern_table table_texts
  pattern_table-Writes ps = draw-Writes (
      silent (font (bold c) 10) (
        said (left-Writes (mm 140) _) (
          said (right-Writes _) (
            silent (font [] 9)
              (closing (for_each-Writes pattern_line-Writes ps) (ln_writes (mm 3)))))))

  overall_patterns-Writes :
      (ps : List PatternStat) → W (overall_patterns c ps) (overall_pattern_texts ps)
  unfolding overall_patterns overall_pattern_texts
  overall_patterns-Writes [] = nothing
  overall_patterns-Writes (p ∷ ps) = behind (heading-Writes _) (pattern_table-Writes (p ∷ ps))

  db_patterns-Writes :
      (m : List (Bytes × List PatternStat)) (db : Bytes)
      → W (db_patterns c m db) (db_pattern_texts m db)
  unfolding db_patterns
  db_patterns-Writes m db = draw-Writes (
      silent (font (bold c) 11) (
        silent (ensure_space-Writes (mm 7))
          (said (text_line-Writes _) (silent (ln_writes (mm 7)) (last (pattern_table-Writes _))))))

  db_patterns_section-Writes :
      (m : List (Bytes × List PatternStat)) → W (db_patterns_section c m) (patterns_by_db_texts m)
  unfolding db_patterns_section patterns_by_db_texts
  db_patterns_section-Writes [] = nothing
  db_patterns_section-Writes (e ∷ m) =
      behind (heading-Writes _) (for_each-Writes (db_patterns-Writes (e ∷ m)) _)

  db_count-Writes : (m : List (Bytes × ℤ)) (db : Bytes) → W (db_count c m db) (count_texts m db)
  db_count-Writes m db = behind (left-Writes (mm 60) _) (right-Writes _)

  counts_section-Writes : (m : List (Bytes × ℤ)) → W (counts_section c m) (counts_texts m)
  unfolding counts_section counts_texts
  counts_section-Writes [] = nothing
  counts_section-Writes (e ∷ m) = draw-Writes (
      silent (ln_writes (mm 2)) (
        said (text_line-Writes _)
          (silent (ln_writes (mm 6)) (last (for_each-Writes (db_count-Writes (e ∷ m)) _)))))

  summary_section-Writes : (s : ReportSummary) → W (summary_section c s) (summary_texts s)
  unfolding summary_section summary_texts
  summary_section-Writes s = draw-Writes (
      said (heading-Writes _) (
        silent (font [] 11) (
          said (left-Writes (mm 60) _) (
            said (right-Writes _) (
              said (left-Writes (mm 60) _) (
                said (right-Writes _) (
                  said (left-Writes (mm 60) _) (
                    said (right-Writes _)
                      (closing (counts_section-Writes s.counts_by_db) (ln_writes (mm 6)))))))))))

  module _ (x : Floats) where
    overall_section-Writes :
        (p : Percentiles x) → W (overall_section c x p) (overall_section_texts x p)
    unfolding overall_section
    overall_section-Writes p = draw-Writes (
        said (heading-Writes _) (
          silent (font [] 11) (
            said (text_line-Writes _) (
              silent (ln_writes (mm 6))
                (said (text_line-Writes _) (silent (ln_writes (mm 8)) ended))))))

    overall_percentiles-Writes :
        (p : Percentiles x) → W (overall_percentiles c x p) (overall_percentile_texts x p)
    unfolding overall_percentiles overall_percentile_texts
    overall_percentiles-Writes p = when-Writes (has_any x p) (overall_section-Writes p)

    db_percentiles-Writes :
        (m : List (Bytes × Percentiles x)) (db : Bytes)
        → W (db_percentiles c x m db) (db_percentile_texts x m db)
    unfolding db_percentiles
    db_percentiles-Writes m db = draw-Writes (
        silent (ensure_space-Writes (mm 12)) (
          said (text_line-Writes _) (
            silent (ln_writes (mm 6)) (
              said (text_line-Writes _) (
                silent (ln_writes (mm 6))
                  (said (text_line-Writes _) (silent (ln_writes (mm 6)) ended)))))))

    db_percentiles_section-Writes :
        (m : List (Bytes × Percentiles x))
        → W (db_percentiles_section c x m) (percentiles_by_db_texts x m)
    unfolding db_percentiles_section percentiles_by_db_texts
    db_percentiles_section-Writes [] = nothing
    db_percentiles_section-Writes (e ∷ m) = draw-Writes (
        said (heading-Writes _) (
          silent (font [] 11)
            (closing (for_each-Writes (db_percentiles-Writes (e ∷ m)) _) (ln_writes (mm 2)))))

    pub front-Writes :
        (rfc3339 : ℕ → Bytes) (r : ReportData x)
        → Writes c texts boxes (front c x rfc3339 r) (front_texts x rfc3339 r)
    unfolding front front_texts
    front-Writes rfc3339 r = draw-Writes (
        silent (font (bold c) 16) (
          said (cell_writes 0 (mm 10) _) (
            silent (ln_writes (mm 12)) (
              silent (font [] 11) (
                said (text_line-Writes _) (
                  silent (ln_writes (mm 6)) (
                    said (text_line-Writes _) (
                      silent (ln_writes (mm 8)) (
                        joined (summary_section-Writes r.summary) (
                          joined (overall_percentiles-Writes r.percentiles_overall) (
                            joined (db_percentiles_section-Writes r.percentiles_by_db) (
                              joined (overall_patterns-Writes r.top_patterns_overall)
                                (last (db_patterns_section-Writes r.top_patterns_by_db))))))))))))))
