-- ===== src/Sqllog/Report/Pdf/Drawing.antt =====
-- The calls of gofpdf that internal/sqllog/report.go makes. The library is not code of the
-- repository: a document is a parameter with these calls, and CanvasLaws says what they promise.
-- A length is a number of nanometres.
use anti_river_ten_demo.Prelude.{ℕ, ◌*◌, ◌≡◌, Bool, List, [], ◌∷◌, ◌++◌}
use anti_river_ten_demo.Strings.{Bytes}
use anti_river_ten_demo.Exec.{Result}

abbrev pub mm : ℕ → ℕ
mm n = n * 1000000

pub record Canvas : Type 1 where
  pub Doc : Type 0
  pub create : Bytes → Bytes → Bytes → Bytes → Doc
  pub set_title : Bytes → Bool → Doc → Doc
  pub add_page : Doc → Doc
  pub set_font : Bytes → Bytes → ℕ → Doc → Doc
  pub cell : ℕ → ℕ → Bytes → Doc → Doc
  pub ln : ℕ → Doc → Doc
  pub cell_format : ℕ → ℕ → Bytes → Bytes → ℕ → Bytes → Bool → ℕ → Bytes → Doc → Doc
  pub rect : ℕ → ℕ → ℕ → ℕ → Bytes → Doc → Doc
  pub set_xy : ℕ → ℕ → Doc → Doc
  pub multi_cell : ℕ → ℕ → Bytes → Bytes → Bytes → Bool → Doc → Doc
  pub split_text : Bytes → ℕ → Doc → List Bytes
  pub get_x : Doc → ℕ
  pub get_y : Doc → ℕ
  pub output : Doc → Result Bytes Bytes

-- A font: its family, its style and its size.
abbrev pub Font : Type 0
Font = Bytes × Bytes × ℕ

-- A box, by its top and its height.
abbrev pub Box : Type 0
Box = ℕ × ℕ

module _ (c : Canvas) where
  open c use {Doc}

  -- What a call writes: the texts and the boxes of a document are those before, and then these.
  pub record Writes (texts : Doc → List Bytes) (boxes : Doc → List Box) (f : Doc → Doc)
      (ts : List Bytes) : Type 0 where
    pub texts_of : (d : Doc) → texts (f d) ≡ texts d ++ ts
    pub boxes_of : (d : Doc) → boxes (f d) ≡ boxes d

-- `texts` are the texts that were written on a document, in order, `boxes` its rectangles, and
-- `font` its font; `top` is where a new page begins.
pub record CanvasLaws (c : Canvas) : Type 0 where
  pub texts : c.Doc → List Bytes
  pub boxes : c.Doc → List Box
  pub font : c.Doc → Font
  pub top : ℕ
  pub create_texts : (o u s f : Bytes) → texts (c.create o u s f) ≡ []
  pub create_boxes : (o u s f : Bytes) → boxes (c.create o u s f) ≡ []
  pub title_writes : (t : Bytes) (utf : Bool) → Writes c texts boxes (c.set_title t utf) []
  pub page_writes : Writes c texts boxes c.add_page []
  pub font_writes :
      (family style : Bytes) (size : ℕ) → Writes c texts boxes (c.set_font family style size) []
  pub cell_writes : (w h : ℕ) (t : Bytes) → Writes c texts boxes (c.cell w h t) (t ∷ [])
  pub ln_writes : (h : ℕ) → Writes c texts boxes (c.ln h) []
  pub format_writes :
      (w h : ℕ) (t border : Bytes) (ln : ℕ) (align : Bytes) (fill : Bool) (link : ℕ) (url : Bytes)
      → Writes c texts boxes (c.cell_format w h t border ln align fill link url) (t ∷ [])
  pub multi_writes :
      (w h : ℕ) (t border align : Bytes) (fill : Bool)
      → Writes c texts boxes (c.multi_cell w h t border align fill) (t ∷ [])
  pub xy_writes : (x y : ℕ) → Writes c texts boxes (c.set_xy x y) []
  pub rect_texts :
      (x y w h : ℕ) (style : Bytes) (d : c.Doc) → texts (c.rect x y w h style d) ≡ texts d
  pub rect_boxes :
      (x y w h : ℕ) (style : Bytes) (d : c.Doc)
      → boxes (c.rect x y w h style d) ≡ boxes d ++ (y, h) ∷ []
  pub page_top : (d : c.Doc) → c.get_y (c.add_page d) ≡ top
  pub font_y :
      (family style : Bytes) (size : ℕ) (d : c.Doc)
      → c.get_y (c.set_font family style size d) ≡ c.get_y d
  pub font_font :
      (family style : Bytes) (size : ℕ) (d : c.Doc)
      → font (c.set_font family style size d) ≡ (family, style, size)
  pub rect_font : (x y w h : ℕ) (style : Bytes) (d : c.Doc) → font (c.rect x y w h style d) ≡ font d
  pub xy_font : (x y : ℕ) (d : c.Doc) → font (c.set_xy x y d) ≡ font d
  pub multi_font :
      (w h : ℕ) (t border align : Bytes) (fill : Bool) (d : c.Doc)
      → font (c.multi_cell w h t border align fill d) ≡ font d
  pub xy_y : (x y : ℕ) (d : c.Doc) → c.get_y (c.set_xy x y d) ≡ y

module _ {D : Type 0} where
  -- A block of calls, one after another.
  unfoldable pub draw : List (D → D) → D → D
  draw [] d = d
  draw (f ∷ fs) d = draw fs (f d)

  -- A loop over a slice.
  unfoldable pub for_each : {A : Type 0} → (A → D → D) → List A → D → D
  for_each f [] d = d
  for_each f (a ∷ as') d = for_each f as' (f a d)
