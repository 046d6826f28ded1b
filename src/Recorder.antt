-- ===== src/Recorder.antt =====
-- The programs that record ADC samples: projects/adc_recorder/adc-recorder.c,
-- projects/adc_recorder_trigger/adc-recorder-trigger.c and projects/lago/adc-recorder.c.
pub mod Rig
pub mod Plain
pub mod Trigger
pub mod Lago
