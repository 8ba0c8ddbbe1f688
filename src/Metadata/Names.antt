-- ===== src/Metadata/Names.antt =====
-- src/metadata_manager.cpp: the enumerations, their spellings, and the extension of a filename.
use rtc_egress.Prelude.{String, ◌≡◌, refl, ◌||◌, if◌then◌else◌, str_eq}

pub data FileType : Type 0 where
  jpeg : FileType
  mp4 : FileType
  ts : FileType
  m3u8 : FileType

pub data CompositionMode : Type 0 where
  individual : CompositionMode
  composite : CompositionMode

pub data Layout : Type 0 where
  flat : Layout
  spotlight : Layout
  customized : Layout
  freestyle : Layout

unfoldable pub composition_mode_to_string : CompositionMode → String
composition_mode_to_string CompositionMode.individual = "Individual"
composition_mode_to_string CompositionMode.composite = "Composite"

unfoldable pub string_to_composition_mode : String → CompositionMode
string_to_composition_mode text =
    if str_eq text "Individual" then CompositionMode.individual else CompositionMode.composite

unfoldable pub layout_to_string : Layout → String
layout_to_string Layout.flat = "flat"
layout_to_string Layout.spotlight = "spotlight"
layout_to_string Layout.customized = "customized"
layout_to_string Layout.freestyle = "freestyle"

unfoldable pub string_to_layout : String → Layout
string_to_layout text =
    if str_eq text "flat" || str_eq text "Flat"
    then Layout.flat
    else if str_eq text "spotlight" || str_eq text "Spotlight"
    then Layout.spotlight
    else if str_eq text "customized" || str_eq text "Customized"
    then Layout.customized
    else if str_eq text "freestyle" || str_eq text "Freestyle"
    then Layout.freestyle
    else Layout.flat

unfoldable pub file_type_to_string : FileType → String
file_type_to_string FileType.jpeg = "JPEG"
file_type_to_string FileType.mp4 = "MP4"
file_type_to_string FileType.ts = "TS"
file_type_to_string FileType.m3u8 = "M3U8"

unfoldable pub string_to_file_type : String → FileType
string_to_file_type text =
    if str_eq text "JPEG" || str_eq text "jpeg" || str_eq text "jpg"
    then FileType.jpeg
    else if str_eq text "MP4" || str_eq text "mp4"
    then FileType.mp4
    else if str_eq text "TS" || str_eq text "ts"
    then FileType.ts
    else if str_eq text "M3U8" || str_eq text "m3u8"
    then FileType.m3u8
    else FileType.mp4

pub composition_mode_lem :
    (m : CompositionMode) → string_to_composition_mode (composition_mode_to_string m) ≡ m
unfolding string_to_composition_mode composition_mode_to_string
composition_mode_lem CompositionMode.individual = refl
composition_mode_lem CompositionMode.composite = refl

pub layout_lem : (l : Layout) → string_to_layout (layout_to_string l) ≡ l
unfolding string_to_layout layout_to_string
layout_lem Layout.flat = refl
layout_lem Layout.spotlight = refl
layout_lem Layout.customized = refl
layout_lem Layout.freestyle = refl

pub file_type_lem : (t : FileType) → string_to_file_type (file_type_to_string t) ≡ t
unfolding string_to_file_type file_type_to_string
file_type_lem FileType.jpeg = refl
file_type_lem FileType.mp4 = refl
file_type_lem FileType.ts = refl
file_type_lem FileType.m3u8 = refl
