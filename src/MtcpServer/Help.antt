-- ===== src/MtcpServer/Help.antt =====
-- mtcpserver.c: the text of the command `help`.
use epsolar_tracer_client.Base.{ℕ, List, ◌++◌}
use epsolar_tracer_client.MtcpServer.Reply.{text_line}

-- `PrintHelp`
unfoldable pub print_help : List ℕ
print_help =
    text_line "Tracer mtcp Server Usage:"
    ++ (text_line "[COMMAND] [ADRESS] [VALUE]"
        ++ (text_line "Commandlist:"
            ++ (text_line
                  "getreg [Adress] [bool orig]    - Get Register Value optional: if [bool orig] is true or 1 not the alternate Value is returned"
                ++ (text_line
                      "getreg32 [Adress] [bool orig]  - Get Register Value for 32bit Registers. Adress must point to the L Byte and the next one must be the H Byte. optional: if [bool orig] is true or 1 not the alternate Value is returned"
                    ++ (text_line "setreg [Adress] [Value]        - Set Register Value"
                        ++ (text_line
                              "setreg32 [Adress] [Value]      - Set Register Value for 32bit Registers. Adress must point to the L Byte and the next one must be the H Byte."
                            ++ (text_line
                                  "getchargemode                  - Return Charging Mode (NO, Float, Boost, Equlization) as String"
                                ++ (text_line
                                      "getoutputstatus                - Return Outputstatus of Discharging device (1 = Running, 0 = Standby)"
                                    ++ (text_line
                                          "debugmem                       - Print Output of the internal Memory Structur"
                                        ++ (text_line
                                              "cleanmem                       - Clean all Values of the internal Memory Structur"
                                            ++ (text_line
                                                  "cleanalternate                 - Clean only User Values added by SETREG or SETREG32"
                                                ++ (text_line
                                                      "getreglist                     - Get Complete List of al known Registers including there Names"
                                                    ++ (text_line
                                                          "triggerserverrealtimeupdate    - Send all Realtime Data to Server"
                                                        ++ (text_line
                                                            "triggerserverstatisticupdate   - Send all Statistic Data to Server"
                                                            ++ (text_line
                                                            "triggertracerrealtimeupdate    - Receive all Realtime Data from Tracer"
                                                            ++ (text_line
                                                            "triggertracerstatisticupdate   - Receive all Statistic Data from Tracer"
                                                            ++ (text_line
                                                            "modbussend                     - Send a raw Modbus Message to Tracer (Function 0x05 and 0x10 Triggers a complete Data update"
                                                            ++ (text_line
                                                            "outputon                       - Switch Tracer Output On"
                                                            ++ (text_line
                                                            "outputoff                      - Switch Tracer Output Off"
                                                            ++ (text_line
                                                            "switch                         - Switch one of the switches defined in memmory.conf on or off (1 or 0)"
                                                            ++ (text_line
                                                            "getcoil [Adress]               - Get UserCoil Value"
                                                            ++ (text_line
                                                            "setcoil [Adress] [Value]       - Set UserCoil Value"
                                                            ++ (text_line
                                                            "help                           - Print this Usage")))))))))))))))))))))))
