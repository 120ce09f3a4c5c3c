-- ===== src/Model/Trace.antt =====
-- `ImportTraceRequest` and `TraceDetail` of internal/dto/trace.go.
use gb_522_a16g.Base.{ℕ, ℤ, List}

pub record ImportTraceRequest (F : Type 0) : Type 0 where
  pub route_id : ℕ
  pub wavelength_nm : ℕ
  pub pulse_width_ns : F
  pub sample_interval_ns : F
  pub points : List F
  pub captured_at : ℕ
  pub denoise_window : ℤ
  pub peak_threshold_db : F
  pub merge_window : ℤ

pub record TraceDetail (F : Type 0) : Type 0 where
  pub id : ℕ
  pub route_id : ℕ
  pub wavelength_nm : ℕ
  pub pulse_width_ns : F
  pub sample_interval_ns : F
  pub points : List F
  pub processed_points : List F
  pub noise_floor_db : F
  pub denoise_window : ℤ
  pub peak_threshold_db : F
  pub merge_window : ℤ
  pub captured_at : ℕ
  pub uploaded_by : ℕ
