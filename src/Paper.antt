-- ===== src/Paper.antt =====
-- Paper positions, app/pipeline/paper_admission.py.
pub mod Admission
