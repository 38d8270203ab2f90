-- ===== src/Reflow/Window.antt =====
-- The current cursor on the screen that `reflow_primary_into` of src/screen/reflow.rs shows.
