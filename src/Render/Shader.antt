-- ===== src/Render/Shader.antt =====
-- src/core/render/gl/version.c and select.c: the version of the GL context and the shaders for it.
-- Strings are lists of ASCII codes.
use idk_overlay.Prelude.{
  ℕ, ◌+◌, ◌*◌, ◌≤◌, ◌≡◌, ◌≢◌, List, [], ◌∷◌, Bool, true, false, ◌&&◌, Option, none, some, ltb, leb,
  ◌==◌, if◌then◌else◌, arith,
}

-- "OpenGL ES-CM ", "OpenGL ES-CL ", "OpenGL ES "
abbrev pub opengl_es : List ℕ → List ℕ
opengl_es rest = 79 ∷ 112 ∷ 101 ∷ 110 ∷ 71 ∷ 76 ∷ 32 ∷ 69 ∷ 83 ∷ rest

abbrev pub es_cm : List ℕ
es_cm = opengl_es (45 ∷ 67 ∷ 77 ∷ 32 ∷ [])

abbrev pub es_cl : List ℕ
es_cl = opengl_es (45 ∷ 67 ∷ 76 ∷ 32 ∷ [])

abbrev pub es_plain : List ℕ
es_plain = opengl_es (32 ∷ [])

-- strncmp of a prefix: what follows it, or `none`.
unfoldable pub strip : List ℕ → List ℕ → Option (List ℕ)
strip [] s = some s
strip (p ∷ ps) [] = none
strip (p ∷ ps) (x ∷ s) = let rest = strip ps s in if p == x then rest else none

-- The loop over `es_prefixes`: whether one was found, and the rest of the string.
unfoldable pub strip_es : List (List ℕ) → List ℕ → Bool × List ℕ
unfolding strip
strip_es [] s = (false, s)
strip_es (p ∷ ps) s =
    let rest = strip_es ps s in elim (strip p s) [ some t ↦ (true, t) | none ↦ rest ]

-- detect_gl_version: the version times 100 and whether it is GLES. `scan` is sscanf(3) with "%d.%d",
-- with zero for a number that it does not find; `version` is glGetString(GL_VERSION).
unfoldable pub detect_gl_version : (List ℕ → ℕ × ℕ) → Option (List ℕ) → ℕ × Bool
unfolding strip_es
detect_gl_version scan none = (0, false)
detect_gl_version scan (some s) =
    let (is_gles, rest) = strip_es (es_cm ∷ es_cl ∷ es_plain ∷ []) s in
    let gl_version = (scan rest).0 * 100 + (scan rest).1 * 10 in
    ((if is_gles && ltb gl_version 300 then 200 else gl_version), is_gles)

-- glsl_version_for
unfoldable pub glsl_version_for : ℕ → Bool → ℕ
glsl_version_for gl_version false =
    if leb 410 gl_version
    then 410
    else if leb 320 gl_version
    then 150
    else if leb 300 gl_version
    then 130
    else 120
glsl_version_for gl_version true = if leb 300 gl_version then 300 else 100

-- `ver_str`, the line that names the language: "100", "120", "300 es", "410 core", "330 core", "150"
-- or "130" after "#version "; and the pair of bodies, by the name of its files.
pub data Version : Type 0 where
  v100 v120 v300_es v410_core v330_core v150 v130 : Version

pub data Body : Type 0 where
  body_120 body_300_es body_410 body_130 : Body

-- select_variant
unfoldable pub select_variant : ℕ → Bool → Version × Body
select_variant glsl is_gles =
    if leb glsl 120
    then ((if is_gles then v100 else v120), body_120)
    else if glsl == 300
    then (v300_es, body_300_es)
    else if leb 410 glsl
    then (v410_core, body_410)
    else if leb 330 glsl
    then (v330_core, body_130)
    else if leb 150 glsl
    then (v150, body_130)
    else (v130, body_130)

-- The least context version whose compiler must know the language, and whether it is one of GLES.
abbrev pub needs : Version → ℕ
needs v100 = 200
needs v120 = 210
needs v300_es = 300
needs v410_core = 410
needs v330_core = 330
needs v150 = 320
needs v130 = 300

abbrev pub is_es : Version → Bool
is_es v100 = true
is_es v300_es = true
is_es _ = false

-- The body was written for the language, or for one of the same rules.
abbrev pub fits : Version → Body → Bool
fits v100 body_120 = true
fits v120 body_120 = true
fits v300_es body_300_es = true
fits v410_core body_410 = true
fits v330_core body_130 = true
fits v150 body_130 = true
fits v130 body_130 = true
fits _ _ = false

-- What the program compiles for a context.
abbrev pub chosen : ℕ → Bool → Version × Body
chosen gl gles = select_variant (glsl_version_for gl gles) gles

-- The shaders chosen for a context of at least GL 2.1 or GLES 2.0 are of a language that it compiles:
-- of GLES exactly if the context is, of a version that the context's asks for, and with the body for
-- that language; and "330 core" is never chosen.
select_variant-fits :
    (gl : ℕ) (gles : Bool)
    → (if gles then 200 else 210) ≤ gl
    → (needs (chosen gl gles).0 ≤ gl)
      × (is_es (chosen gl gles).0 ≡ gles)
      × (fits (chosen gl gles).0 (chosen gl gles).1 ≡ true)
      × ((chosen gl gles).0 ≢ v330_core)
unfolding select_variant glsl_version_for
select_variant-fits gl true h =
    (ground (arith, h), ground (arith, h), ground (arith, h), λ e. ground (arith, h, e))
select_variant-fits gl false h =
    (ground (arith, h), ground (arith, h), ground (arith, h), λ e. ground (arith, h, e))
