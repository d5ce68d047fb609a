-- ===== src/Runtime/Text/Trim/Slice.antt =====
-- A part of a text (libs/runtime/src/kn_runtime.c, __kn_text_slice).
